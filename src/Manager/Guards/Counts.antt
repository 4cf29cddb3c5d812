-- ===== src/Manager/Guards/Counts.antt =====
-- provider/manager.go: the goroutines that hold or wait for a slot of a cell's semaphore, and what
-- one operation of the semaphore does to their numbers.
use mathlib.Core.Option.{some-injective}
use switch.Prelude.{
  ℕ, zero, suc, ◌+◌, ◌≤◌, ◌<◌, ◌≡◌, refl, ◌⊎◌, inl, inr, Option, none, some, List, [], ◌∷◌, arith,
  ◌==◌, if◌then◌else◌, Option-cases, length, get_or, set, ap,
}
use switch.Concurrency.Semaphore.{Semaphore}
use switch.Manager.{Manager, update_cell}
use switch.Manager.Registry
use switch.Manager.Calls.{same_maps-Inv}
use switch.Manager.Guards.{
  Phase, System, on_semaphore, idle, found, guarding, calling, leaving, returned, with_semaphore,
  acquiring, go_to, At,
}

-- The cell is that of the number.
abbrev pub hits : ℕ → Option ℕ → ℕ
hits c none = 0
hits c (some i) = if i == c then 1 else 0

pub hits-cases : (c : ℕ) (id : Option ℕ) → (hits c id ≡ 0) ⊎ (hits c id ≡ 1)
hits-cases c none = inl refl
hits-cases c (some i) = ground arith

-- A semaphore that counts h holders and w waiters.
pub record Agrees (t : Semaphore) (h w : ℕ) : Type 0 where
  pub taken : t.taken ≡ h
  pub waiting : t.waiting ≡ w
  pub bounded : t.taken ≤ t.capacity

module _ {P : Type 0} where
  unfoldable pub holds : ℕ → Phase P → ℕ
  holds c idle = 0
  holds c (found name p) = 0
  holds c (acquiring p g) = 0
  holds c (guarding p g) = hits c g.sem
  holds c (calling p g) = hits c g.sem
  holds c (leaving g outcome) = hits c g.sem
  holds c (returned outcome) = 0

  unfoldable pub waits : ℕ → Phase P → ℕ
  waits c idle = 0
  waits c (found name p) = 0
  waits c (acquiring p g) = hits c g.sem
  waits c (guarding p g) = 0
  waits c (calling p g) = 0
  waits c (leaving g outcome) = 0
  waits c (returned outcome) = 0

  unfoldable pub count : (Phase P → ℕ) → List (Phase P) → ℕ
  count f [] = 0
  count f (t ∷ ts) = f t + count f ts

  pub count-set :
      (f : Phase P → ℕ) (ts : List (Phase P)) (i : ℕ) (v d : Phase P)
      → i < length ts
      → (count f (set ts i v) + f (get_or ts i d) ≡ count f ts + f v)
        × (f (get_or ts i d) ≤ count f ts)
  unfolding count
  count-set f [] i v d h = elim h [ ]
  count-set f (t ∷ ts) zero v d h = (omega arith, omega arith)
  count-set f (t ∷ ts) (suc i) v d h =
      let later = count-set f ts i v d (omega arith) in
      (omega (arith, later.0), omega (arith, later.1))

  -- Goroutine i goes from one phase to another.
  pub moved :
      (f : Phase P → ℕ) (s : System P) (i : ℕ) (old new : Phase P)
      → At s i old
      → (count f (set s.threads i new) + f old ≡ count f s.threads + f new)
        × (f old ≤ count f s.threads)
  moved f s i old new (inside, stands) = rw⁻¹ stands (count-set f s.threads i new idle inside)

  pub record Inv (s : System P) : Type 0 where
    pub registry : Registry.Inv s.manager
    pub fresh :
        (c : ℕ)
        → s.manager.next_cell ≤ c
        → (count (holds c) s.threads ≡ 0) × (count (waits c) s.threads ≡ 0)
    pub agrees :
        (c : ℕ) (t : Semaphore)
        → (s.manager.cells c).semaphore ≡ some t
        → Agrees t (count (holds c) s.threads) (count (waits c) s.threads)

  -- What a successful operation on the semaphore of a cell leaves.
  record Operated (op : Semaphore → Option Semaphore) (id : Option ℕ) (m m' : Manager P)
      : Type 0 where
    same : m' ≡ record m { cells = m'.cells }
    others : (c : ℕ) → hits c id ≡ 0 → m'.cells c ≡ m.cells c
    own :
        (c : ℕ) (t' : Semaphore)
        → hits c id ≡ 1
        → (m'.cells c).semaphore ≡ some t'
        → (t : Semaphore) × ((m.cells c).semaphore ≡ some t) × (op t ≡ some t')

  on_semaphore-Operated :
      (op : Semaphore → Option Semaphore) (id : Option ℕ) (m m' : Manager P)
      → on_semaphore op id m ≡ some m'
      → Operated op id m m'
  unfolding on_semaphore update_cell
  on_semaphore-Operated op none m m' e =
      let same : m ≡ m' = some-injective m m' e in
      rw⁻¹ same (record { same = refl; others = λ c h. refl; own = λ c t h e'. cc })
  on_semaphore-Operated op (some i) m m' e = elim (Option-cases (m.cells i).semaphore) [
    | inl unlimited ↦
        let same : m ≡ m' = some-injective m m' (ground (arith, e, unlimited)) in
        rw⁻¹ same (record {
          same = refl;
          others = λ c h. refl;
          own = λ c t h e'. ground (arith, unlimited);
        })
    | inr (t, there) ↦ elim (Option-cases (op t)) [
      | inl blocked ↦ cc
      | inr (t', went) ↦
          let same : update_cell i (with_semaphore t') m ≡ m' =
            some-injective _ m' (ground (arith, e, there, went)) in
          rw⁻¹ same (record {
            same = refl;
            others = λ c h. ground arith;
            own = λ c u h e'.
                let this_one : i ≡ c = ground arith in
                (t, rw⁻¹ this_one there, ground (arith, this_one, went));
          })
    ]
  ]

  -- A goroutine goes from one phase to another by an operation of a semaphore that keeps the counts.
  pub operate-Inv :
      (op : Semaphore → Option Semaphore) (id : Option ℕ) (i : ℕ) (old new : Phase P) (s : System P)
      (m : Manager P)
      → At s i old
      → on_semaphore op id s.manager ≡ some m
      → ((c : ℕ) → s.manager.next_cell ≤ c → hits c id ≡ 0)
      → ((c : ℕ)
          → hits c id ≡ 0
          → (holds c old ≡ 0) × (holds c new ≡ 0) × (waits c old ≡ 0) × (waits c new ≡ 0))
      → ((c : ℕ) (t t' : Semaphore) (h h' w w' : ℕ)
          → hits c id ≡ 1
          → op t ≡ some t'
          → holds c old ≤ h
          → waits c old ≤ w
          → h' + holds c old ≡ h + holds c new
          → w' + waits c old ≡ w + waits c new
          → Agrees t h w
          → Agrees t' h' w')
      → Inv s
      → Inv (go_to i new m s)
  unfolding go_to
  operate-Inv op id i old new s m at_old went known apart keeps v =
      let o = on_semaphore-Operated op id s.manager m went in
      let held : (c : ℕ)
          → (count (holds c) (set s.threads i new) + holds c old
              ≡ count (holds c) s.threads + holds c new)
            × (holds c old ≤ count (holds c) s.threads) =
        λ c. moved (holds c) s i old new at_old in
      let waited : (c : ℕ)
          → (count (waits c) (set s.threads i new) + waits c old
              ≡ count (waits c) s.threads + waits c new)
            × (waits c old ≤ count (waits c) s.threads) =
        λ c. moved (waits c) s i old new at_old in
      record {
        registry = rw o.same (same_maps-Inv s.manager.factories m.cells s.manager v.registry);
        fresh = λ c later.
            let unused : s.manager.next_cell ≤ c =
              omega (arith, later, ap (λ n. n.next_cell) o.same) in
            let f = v.fresh c unused in
            let a = apart c (known c unused) in
            (omega (arith, f, a, held c), omega (arith, f, a, waited c));
        agrees = λ c t' there. elim (hits-cases c id) [
          | inl missed ↦
              let a = apart c missed in
              let kept = v.agrees c t' (rw⁻¹ (o.others c missed) there) in
              record {
                taken = omega (arith, kept.taken, a, held c);
                waiting = omega (arith, kept.waiting, a, waited c);
                bounded = kept.bounded;
              }
          | inr hit ↦
              let (t, was, did) = o.own c t' hit there in
              keeps c t t' _ _ _ _ hit did (held c).1 (waited c).1 (held c).0 (waited c).0
                (v.agrees c t was)
        ];
      }
