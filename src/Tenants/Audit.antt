-- ===== src/Tenants/Audit.antt =====
-- provider/tenant.go: AuditLog, and that it shows the last of all entries ever recorded. E is the type
-- of an entry.
use mathlib.Core.List.{append-nil}
use switch.Prelude.{
  ℕ, zero, suc, ◌+◌, ◌-◌, ◌≤◌, ◌≡◌, refl, ap, List, [], ◌∷◌, ◌++◌, arith, ltb, ◌==◌, if◌then◌else◌,
  length, snoc, drop, sym, ◌∙◌, inl, inr, Bool-cases, min, length-snoc, snoc-append,
}

pub record AuditLog (E : Type 0) : Type 0 where
  pub entries : List E
  pub max_size : ℕ

module _ {E : Type 0} where
  unfoldable pub new_audit_log : ℕ → AuditLog E
  new_audit_log size = record { entries = []; max_size = size }

  unfoldable pub record_entry : E → AuditLog E → AuditLog E
  record_entry e a =
      let entries = snoc a.entries e in
      record a {
        entries =
            if ltb a.max_size (length entries)
            then drop (length entries - a.max_size) entries
            else entries;
      }

  unfoldable pub list_last : ℕ → AuditLog E → List E
  list_last limit a =
      let n = length a.entries in
      let shown = if limit == 0 then n else if ltb n limit then n else limit in
      drop (n - shown) a.entries

  unfoldable pub record_all : List E → AuditLog E → AuditLog E
  record_all [] a = a
  record_all (e ∷ es) a = record_all es (record_entry e a)

  -- The last n of a list.
  abbrev pub last : ℕ → List E → List E
  last n es = drop (length es - n) es

  length-drop : (n : ℕ) (es : List E) → length (drop n es) ≡ length es - n
  length-drop zero es = omega arith
  length-drop (suc n) [] = omega arith
  length-drop (suc n) (x ∷ es) = omega (arith, length-drop n es)

  drop-nil : (n : ℕ) → ◌≡◌ {A = List E} (drop n []) []
  drop-nil zero = refl
  drop-nil (suc n) = refl

  drop-drop : (n m : ℕ) (es : List E) → drop n (drop m es) ≡ drop (m + n) es
  drop-drop n zero es = ap (λ k. drop k es) (omega arith)
  drop-drop n (suc m) [] = drop-nil n ∙ sym (drop-nil (suc m + n))
  drop-drop n (suc m) (x ∷ es) =
      let next : suc m + n ≡ suc (m + n) = omega arith in
      drop-drop n m es ∙ sym (ap (λ k. drop k (x ∷ es)) next)

  drop-snoc :
      (n : ℕ) (es : List E) (e : E) → n ≤ length es → drop n (snoc es e) ≡ snoc (drop n es) e
  drop-snoc zero es e h = refl
  drop-snoc (suc n) [] e h = absurd (omega (arith, h))
  drop-snoc (suc n) (x ∷ es) e h = drop-snoc n es e (omega (arith, h))

  -- Recording an entry after the last ones of a history.
  record_entry-last :
      (size : ℕ) (history : List E) (e : E)
      → (record_entry e (record { entries = last size history; max_size = size })).entries
        ≡ last size (snoc history e)
  unfolding record_entry
  record_entry-last size history e =
      let k = length history - size in
      let moved = drop-snoc k history e (omega arith) in
      let grown = length-snoc history e in
      let more = length-snoc (drop k history) e in
      let cut = length-drop k history in
      elim (Bool-cases (ltb size (length (snoc (drop k history) e)))) [
        | inl over ↦
            let n : k + (length (snoc (drop k history) e) - size) ≡ length (snoc history e) - size =
              ground (arith, grown, more, cut, over) in
            rw over (
              ap (drop (length (snoc (drop k history) e) - size)) (sym moved)
              ∙ drop-drop _ k (snoc history e)
              ∙ ap (λ c. drop c (snoc history e)) n)
        | inr within ↦
            let n : k ≡ length (snoc history e) - size = ground (arith, grown, more, cut, within) in
            rw within (sym moved ∙ ap (λ c. drop c (snoc history e)) n)
      ]

  record_all-last :
      (es history : List E) (a : AuditLog E)
      → a.entries ≡ last a.max_size history
      → (record_all es a).entries ≡ last a.max_size (history ++ es)
  unfolding record_all record_entry
  record_all-last [] history a h = h ∙ ap (last a.max_size) (sym (append-nil history))
  record_all-last (e ∷ es) history a h =
      record_all-last es (snoc history e) (record_entry e a)
        (rw h (record_entry-last a.max_size history e))
      ∙ ap (last a.max_size) (snoc-append history e es)

  -- After any entries the log holds the last ones of all, as many as its size allows, and its list of
  -- a limit is the last ones of those, all of them without a limit.
  pub list_last-record_all :
      (size limit : ℕ) (es : List E)
      → let a = record_all es (new_audit_log size) in
        (a.entries ≡ last size es)
        × (list_last limit a ≡ last (if limit == 0 then size else min limit size) es)
  unfolding new_audit_log list_last
  list_last-record_all size limit es =
      let a = record_all es (new_audit_log size) in
      let all : a.entries ≡ last size es =
        record_all-last es [] (new_audit_log size) (sym (drop-nil (0 - size))) in
      let k = length es - size in
      let n = length (last size es) in
      let cut = length-drop k es in
      let shown = if limit == 0 then n else if ltb n limit then n else limit in
      let start : k + (n - shown) ≡ length es - (if limit == 0 then size else min limit size) =
        ground (arith, cut) in
      (all, rw all (drop-drop (n - shown) k es ∙ ap (λ c. drop c es) start))
