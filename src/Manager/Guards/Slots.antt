-- ===== src/Manager/Guards/Slots.antt =====
-- provider/manager.go: how many calls are past the semaphore of a provider at once, and that the
-- deferred Release of a call does not block.
use switch.Prelude.Int.{ℤ}
use switch.Prelude.Dict.{lookup}
use switch.Prelude.{
  ℕ, ◌≤◌, String, ◌≡◌, refl, sym, ◌∙◌, inl, inr, some, arith, Option-cases, zero, suc, ◌<◌, ◌≢◌,
  Option, none, replicate,
}
use switch.Concurrency.Semaphore.{start_waiting, take_slot, Semaphore, give_up, release_slot}
use switch.Manager.{Manager, Cell, new_manager}
use switch.Manager.Registry.{new_manager-Inv}
use switch.Manager.Guards.{
  System, Guards, Outcome, guards_of, on_semaphore, go_to, At, idle, found, acquiring, guarding,
  leaving, Phase, enter_guards, Step, Reach, no_slot, calling, returned, misses, finds, reads,
  takes, gives_up, guards, answers, leaves, manages, here, next,
}
use switch.Manager.Guards.Counts.{Inv, hits, holds, waits, moved, operate-Inv, Agrees, count}
use switch.Manager.Guards.Touched.{touch-Inv, untouched, record_outcome-Touched, guard_call-Touched}
use switch.Manager.Guards.Cells.{manage-Inv}

start_waiting-Agrees :
    (t t' : Semaphore) (h w : ℕ)
    → ◌≡◌ {A = Option Semaphore} (some (start_waiting t)) (some t')
    → Agrees t h w
    → Agrees t' h (suc w)
unfolding start_waiting
start_waiting-Agrees t t' h w did k = ground (arith, k.taken, k.waiting, k.bounded)

take_slot-Agrees :
    (t t' : Semaphore) (h w : ℕ) → take_slot t ≡ some t' → Agrees t h (suc w) → Agrees t' (suc h) w
unfolding take_slot
take_slot-Agrees t t' h w did k = ground (arith, k.taken, k.waiting, k.bounded)

give_up-Agrees :
    (t t' : Semaphore) (h w : ℕ)
    → ◌≡◌ {A = Option Semaphore} (some (give_up t)) (some t')
    → Agrees t h (suc w)
    → Agrees t' h w
unfolding give_up
give_up-Agrees t t' h w did k = ground (arith, k.taken, k.waiting, k.bounded)

release_slot-Agrees :
    (t t' : Semaphore) (h w : ℕ) → release_slot t ≡ some t' → Agrees t (suc h) w → Agrees t' h w
unfolding release_slot
release_slot-Agrees t t' h w did k = ground (arith, k.taken, k.waiting, k.bounded)

agree_by : {t : Semaphore} {h h' w w' : ℕ} → h ≡ h' → w ≡ w' → Agrees t h w → Agrees t h' w'
agree_by e e' k = rw⁻¹ (e, e') k

module _ {P : Type 0} where
  -- The semaphore that a goroutine refers to has been made.
  known_waiter :
      (i c : ℕ) (p : P) (g : Guards) (s : System P)
      → At s i (acquiring p g)
      → Inv s
      → s.manager.next_cell ≤ c
      → hits c g.sem ≡ 0
  unfolding waits
  known_waiter i c p g s at_ v h =
      omega (arith, moved (waits c) s i (acquiring p g) idle at_, v.fresh c h)

  known_holder :
      (i c : ℕ) (g : Guards) (outcome : Outcome) (s : System P)
      → At s i (leaving g outcome)
      → Inv s
      → s.manager.next_cell ≤ c
      → hits c g.sem ≡ 0
  unfolding holds
  known_holder i c g outcome s at_ v h =
      omega (arith, moved (holds c) s i (leaving g outcome) idle at_, v.fresh c h)

  known_semaphore :
      (name : String) (c : ℕ) (s : System P)
      → Inv s
      → s.manager.next_cell ≤ c
      → hits c (guards_of name s.manager).sem ≡ 0
  unfolding guards_of
  known_semaphore name c s v h =
      let f = v.registry.fits name in
      elim (Option-cases (lookup name s.manager.semaphores)) [
        | inl missing ↦ rw missing refl
        | inr (i, e) ↦ let lt = f.made i (sym f.semaphore ∙ e) in rw e (ground (arith, lt))
      ]

  reads-Inv :
      (i : ℕ) (name : String) (p : P) (s : System P) (m : Manager P)
      → At s i (found name p)
      → on_semaphore (λ t. some (start_waiting t)) (guards_of name s.manager).sem s.manager ≡ some m
      → Inv s
      → Inv (go_to i (acquiring p (guards_of name s.manager)) m s)
  unfolding holds waits start_waiting
  reads-Inv i name p s m at_ went v =
      operate-Inv (λ t. some (start_waiting t)) (guards_of name s.manager).sem i (found name p)
        (acquiring p (guards_of name s.manager)) s m at_ went (λ c h. known_semaphore name c s v h)
        (λ c h. (refl, refl, refl, h))
        (λ c t t' h h' w w' hit did a b eh ew k.
          agree_by (omega (arith, eh)) (omega (arith, ew, hit))
            (start_waiting-Agrees t t' h w did k))
        v

  takes-Inv :
      (i : ℕ) (p : P) (g : Guards) (s : System P) (m : Manager P)
      → At s i (acquiring p g)
      → on_semaphore take_slot g.sem s.manager ≡ some m
      → Inv s
      → Inv (go_to i (guarding p g) m s)
  unfolding holds waits take_slot
  takes-Inv i p g s m at_ went v =
      operate-Inv take_slot g.sem i (acquiring p g) (guarding p g) s m at_ went
        (λ c h. known_waiter i c p g s at_ v h) (λ c h. (refl, h, h, refl))
        (λ c t t' h h' w w' hit did a b eh ew k.
          agree_by (omega (arith, eh, hit)) refl
            (take_slot-Agrees t t' h w' did (agree_by refl (omega (arith, ew, hit)) k)))
        v

  gives_up-Inv :
      (i : ℕ) (p : P) (g : Guards) (s : System P) (m : Manager P)
      → At s i (acquiring p g)
      → on_semaphore (λ t. some (give_up t)) g.sem s.manager ≡ some m
      → Inv s
      → Inv (go_to i (returned no_slot) m s)
  unfolding holds waits
  gives_up-Inv i p g s m at_ went v =
      operate-Inv (λ t. some (give_up t)) g.sem i (acquiring p g) (returned no_slot) s m at_ went
        (λ c h. known_waiter i c p g s at_ v h) (λ c h. (refl, refl, h, refl))
        (λ c t t' h h' w w' hit did a b eh ew k.
          agree_by (omega (arith, eh)) refl
            (give_up-Agrees t t' h w' did (agree_by refl (omega (arith, ew, hit)) k)))
        v

  leaves-Inv :
      (i : ℕ) (g : Guards) (outcome : Outcome) (s : System P) (m : Manager P)
      → At s i (leaving g outcome)
      → on_semaphore release_slot g.sem s.manager ≡ some m
      → Inv s
      → Inv (go_to i (returned outcome) m s)
  unfolding holds waits
  leaves-Inv i g outcome s m at_ went v =
      operate-Inv release_slot g.sem i (leaving g outcome) (returned outcome) s m at_ went
        (λ c h. known_holder i c g outcome s at_ v h) (λ c h. (h, refl, refl, refl))
        (λ c t t' h h' w w' hit did a b eh ew k.
          agree_by refl (omega (arith, ew))
            (release_slot-Agrees t t' h' w did (agree_by (omega (arith, eh, hit)) refl k)))
        v

  guards-Inv :
      (i now : ℕ) (tokens : ℤ) (p : P) (g : Guards) (s : System P)
      → At s i (guarding p g)
      → Inv s
      → Inv (enter_guards i now tokens p g s)
  unfolding holds waits
  guards-Inv i now tokens p g s at_ v =
      let (t, kept) = guard_call-Touched now tokens p g s.manager in
      touch-Inv i (guarding p g) _ s _ at_ t kept v

  Step-Inv : {s u : System P} → Step s u → Inv s → Inv u
  unfolding holds waits
  Step-Inv {s} (misses i name at_ e) v =
      touch-Inv i idle _ s _ at_ (untouched s.manager) (λ c. (refl, refl)) v
  Step-Inv {s} (finds i name p at_ e) v =
      touch-Inv i idle _ s _ at_ (untouched s.manager) (λ c. (refl, refl)) v
  Step-Inv {s} (reads i name p m at_ went) v = reads-Inv i name p s m at_ went v
  Step-Inv {s} (takes i p g m at_ went) v = takes-Inv i p g s m at_ went v
  Step-Inv {s} (gives_up i p g m at_ went) v = gives_up-Inv i p g s m at_ went v
  Step-Inv {s} (guards i now tokens p g at_) v = guards-Inv i now tokens p g s at_ v
  Step-Inv {s} (answers i now duration failed p g at_) v =
      touch-Inv i (calling p g) _ s _ at_
        (record_outcome-Touched now failed duration g.cb s.manager) (λ c. (refl, refl)) v
  Step-Inv {s} (leaves i g outcome m at_ went) v = leaves-Inv i g outcome s m at_ went v
  Step-Inv {s} (manages call h) v = manage-Inv call s h v

  Reach-Inv : {s u : System P} → Reach s u → Inv s → Inv u
  Reach-Inv here v = v
  Reach-Inv (next r step) v = Step-Inv step (Reach-Inv r v)

  count-replicate : (f : Phase P → ℕ) (n : ℕ) → f idle ≡ 0 → count f (replicate n idle) ≡ 0
  unfolding count
  count-replicate f zero h = refl
  count-replicate f (suc n) h = omega (arith, h, count-replicate f n h)

  -- A new manager, with goroutines that have not called it yet.
  abbrev pub start_of : Cell → ℕ → System P
  start_of unused n = record { manager = new_manager unused; threads = replicate n idle }

  start-Inv : (unused : Cell) (n : ℕ) → unused.semaphore ≡ none → Inv (start_of unused n)
  unfolding holds waits new_manager
  start-Inv unused n free = record {
    registry = new_manager-Inv unused;
    fresh = λ c h. (count-replicate (holds c) n refl, count-replicate (waits c) n refl);
    agrees = λ c t there. ground (arith, there, free);
  }

  release-unblocked :
      (id : Option ℕ) (m : Manager P)
      → ((j : ℕ) (t : Semaphore) → id ≡ some j → (m.cells j).semaphore ≡ some t → 0 < t.taken)
      → on_semaphore release_slot id m ≢ none
  unfolding on_semaphore release_slot
  release-unblocked none m h e = cc
  release-unblocked (some j) m h e = elim (Option-cases (m.cells j).semaphore) [
    | inl unlimited ↦ ground (arith, unlimited, e)
    | inr (t, there) ↦ ground (arith, there, e, h j t refl there)
  ]

  -- After any steps of the goroutines in Generate and any calls of the registry, with providers
  -- removed, replaced and registered again under calls that are on their way: of each semaphore that
  -- was ever made, the slots taken are as many as the goroutines between its Acquire and its Release,
  -- at most its capacity, and its counter of waiting goroutines is right.
  pub slots-counted :
      (unused : Cell) (n : ℕ) (s : System P) (c : ℕ) (t : Semaphore)
      → unused.semaphore ≡ none
      → Reach (start_of unused n) s
      → (s.manager.cells c).semaphore ≡ some t
      → Agrees t (count (holds c) s.threads) (count (waits c) s.threads)
  slots-counted unused n s c t free r there =
      (Reach-Inv r (start-Inv unused n free)).agrees c t there

  -- Nor does the deferred Release of a goroutine ever block.
  pub release-runs :
      (unused : Cell) (n i : ℕ) (s : System P) (g : Guards) (outcome : Outcome)
      → unused.semaphore ≡ none
      → Reach (start_of unused n) s
      → At s i (leaving g outcome)
      → on_semaphore release_slot g.sem s.manager ≢ none
  unfolding holds
  release-runs unused n i s g outcome free r at_ =
      release-unblocked g.sem s.manager (λ j t named there.
        let k = slots-counted unused n s j t free r there in
        let counted = (moved (holds j) s i (leaving g outcome) idle at_).1 in
        let one : hits j g.sem ≡ 1 = rw named (ground arith) in
        omega (arith, k.taken, counted, one))
