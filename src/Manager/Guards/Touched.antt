-- ===== src/Manager/Guards/Touched.antt =====
-- provider/manager.go: the steps of Generate and of the registry that leave the slots of the
-- semaphores in use as they are.
use switch.Prelude.Int.{ℤ}
use switch.Prelude.{
  ℕ, ◌≡◌, refl, sym, ap, ◌∙◌, inl, inr, Bool, Option, none, some, arith, ◌==◌, Bool-cases, set,
}
use switch.Manager.{Cell, Manager, update_cell}
use switch.Manager.Calls.{same_maps-Inv}
use switch.Manager.Guards.{
  Guards, Phase, ask_limiter, ask_breaker, guard_call, record_outcome, go_to, At, System,
}
use switch.Manager.Guards.Counts.{hits, holds, waits, count, moved, Inv}

module _ {P : Type 0} where
  abbrev with_cells : (ℕ → Cell) → Manager P → Manager P
  with_cells cells m = record m { cells = cells }

  -- Only limiters and breakers have changed.
  pub record Touched (m m' : Manager P) : Type 0 where
    pub same : m' ≡ record m { cells = m'.cells }
    pub semaphore : (c : ℕ) → (m'.cells c).semaphore ≡ (m.cells c).semaphore

  pub untouched : (m : Manager P) → Touched m m
  untouched m = record { same = refl; semaphore = λ c. refl }

  update_cell-Touched :
      (i : ℕ) (f : Cell → Cell) (m : Manager P)
      → (f (m.cells i)).semaphore ≡ (m.cells i).semaphore
      → Touched m (update_cell i f m)
  unfolding update_cell
  update_cell-Touched i f m e = record {
    same = refl;
    semaphore = λ c. elim (Bool-cases (i == c)) [
      | inl mine ↦ let this_one : i ≡ c = ground (arith, mine) in rw mine (rw⁻¹ this_one e)
      | inr others ↦ rw others refl
    ];
  }

  ask_limiter-Touched :
      (now : ℕ) (tokens : ℤ) (id : Option ℕ) (m : Manager P)
      → Touched m (ask_limiter now tokens id m).0
  unfolding ask_limiter
  ask_limiter-Touched now tokens none m = untouched m
  ask_limiter-Touched now tokens (some i) m = update_cell-Touched i _ m refl

  ask_breaker-Touched :
      (now : ℕ) (id : Option ℕ) (m : Manager P) → Touched m (ask_breaker now id m).0
  unfolding ask_breaker
  ask_breaker-Touched now none m = untouched m
  ask_breaker-Touched now (some i) m = update_cell-Touched i _ m refl

  pub record_outcome-Touched :
      (now : ℕ) (failed : Bool) (duration : ℕ) (id : Option ℕ) (m : Manager P)
      → Touched m (record_outcome now failed duration id m)
  unfolding record_outcome
  record_outcome-Touched now failed duration none m = untouched m
  record_outcome-Touched now failed duration (some i) m = update_cell-Touched i _ m refl

  trans-Touched : (m m' m'' : Manager P) → Touched m m' → Touched m' m'' → Touched m m''
  trans-Touched m m' m'' t t' = record {
    same = t'.same ∙ ap (with_cells m''.cells) t.same;
    semaphore = λ c. t'.semaphore c ∙ t.semaphore c;
  }

  pub guard_call-Touched :
      (now : ℕ) (tokens : ℤ) (p : P) (g : Guards) (m : Manager P)
      → Touched m (guard_call now tokens p g m).0
        × ((c : ℕ)
            → (holds c (guard_call now tokens p g m).1 ≡ hits c g.sem)
              × (waits c (guard_call now tokens p g m).1 ≡ 0))
  unfolding guard_call holds waits
  guard_call-Touched now tokens p g m =
      let m' = (ask_limiter now tokens g.rl m).0 in
      let asked = ask_limiter-Touched now tokens g.rl m in
      elim (Bool-cases (ask_limiter now tokens g.rl m).1) [
        | inr over ↦ rw over (asked, λ c. (refl, refl))
        | inl fits ↦
            let both = trans-Touched m m' _ asked (ask_breaker-Touched now g.cb m') in
            elim (Bool-cases (ask_breaker now g.cb m').1) [
              | inl passes ↦ rw (fits, passes) (both, λ c. (refl, refl))
              | inr refused ↦ rw (fits, refused) (both, λ c. (refl, refl))
            ]
      ]

  -- A goroutine that neither takes nor gives back a slot.
  pub touch-Inv :
      (i : ℕ) (old new : Phase P) (s : System P) (m : Manager P)
      → At {P = P} s i old
      → Touched s.manager m
      → ((c : ℕ) → (holds c new ≡ holds c old) × (waits c new ≡ waits c old))
      → Inv s
      → Inv (go_to i new m s)
  unfolding go_to
  touch-Inv i old new s m at_old t kept v =
      let held : (c : ℕ) → count (holds c) (set s.threads i new) ≡ count (holds c) s.threads =
        λ c. omega (arith, moved (holds c) s i old new at_old, kept c) in
      let waited : (c : ℕ) → count (waits c) (set s.threads i new) ≡ count (waits c) s.threads =
        λ c. omega (arith, moved (waits c) s i old new at_old, kept c) in
      record {
        registry = rw t.same (same_maps-Inv s.manager.factories m.cells s.manager v.registry);
        fresh = λ c later.
            let f = v.fresh c (omega (arith, later, ap (λ n. n.next_cell) t.same)) in
            (held c ∙ f.0, waited c ∙ f.1);
        agrees = λ c u there.
            let a = v.agrees c u (sym (t.semaphore c) ∙ there) in rw (held c, waited c) a;
      }
