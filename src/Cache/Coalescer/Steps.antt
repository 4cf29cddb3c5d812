-- ===== src/Cache/Coalescer/Steps.antt =====
-- cache/coalescer.go: every step keeps the invariant.
use native.Mathlib.Nat.{le_refl}
use switch.Prelude.Dict.{
  lookup, remove, lookup-insert, insert-IsMap, lookup-remove_ne, lookup-remove, remove-IsMap,
}
use switch.Prelude.{
  ℕ, String, ◌≡◌, sym, ◌∙◌, ◌≢◌, ◌⊎◌, inl, inr, none, some, arith, eq_iff, str_eq, Bool-cases,
  subst, Option-cases, put,
}
use switch.Cache.Coalescer.{
  System, enter, clean_up, executing, cleaning, returned, move, Step, Reach, waiting, timed_out,
  panicked, enters, publishes, cleans, wakes, times_out, panics, here, next,
}
use switch.Cache.Coalescer.Invariant.{
  Inv, Leads, put-Leads-cases, Leads-cleaning, move-Inv, publish-Inv,
}

module _ {R : Type 0} where
  clean_up-Inv :
      (i : ℕ) (key : String) (call : ℕ) (r : R) (s : System R)
      → s.threads i ≡ cleaning key call r
      → Inv s
      → Inv (clean_up i key call r s)
  unfolding clean_up
  clean_up-Inv i key call r s h v =
      let lead = Leads-cleaning s i key call r h in
      let mine = v.led i key call lead in
      record {
        is_map = remove-IsMap key s.pending v.is_map;
        numbered = λ k c e. ground (arith, v.numbered k c, lookup-remove key k s.pending v.is_map);
        unborn = v.unborn;
        led = λ j k c l. elim (put-Leads-cases i j (returned call r) s.threads k c l) [
          | inl (same, none_led) ↦ absurd none_led
          | inr (ne, l') ↦ still_there j k c ne l'
        ];
        open_call = λ j k c e. ground (arith, v.open_call j k c);
        result = λ j k c r' e. ground (arith, v.result j k c r');
        shared = λ j c r' e. ground (arith, v.shared j c r', v.result i key call r h);
        single = λ j j' k l c a b. v.single j j' k l c (was_leading j k c a) (was_leading j' l c b);
      }
    where
      was_leading :
          (j : ℕ) (k : String) (c : ℕ)
          → Leads (put i (returned call r) s.threads j) k c
          → Leads (s.threads j) k c
      was_leading j k c l = elim (put-Leads-cases i j (returned call r) s.threads k c l) [
        | inl (same, none_led) ↦ absurd none_led
        | inr (ne, l') ↦ l'
      ]

      still_there :
          (j : ℕ) (k : String) (c : ℕ)
          → i ≢ j
          → Leads (s.threads j) k c
          → lookup k (remove key s.pending) ≡ some c
      still_there j k c ne l = elim (Bool-cases (str_eq key k)) [
        | inl same ↦
            let key_same = (eq_iff key k).0 same in
            let mine = v.led i key call (Leads-cleaning s i key call r h) in
            let one : call ≡ c = ground (arith, v.led j k c l) in
            absurd (ne (v.single i j key k call (Leads-cleaning s i key call r h) (rw one l)))
        | inr other ↦ lookup-remove_ne key k s.pending other ∙ v.led j k c l
      ]

  lead-Inv :
      (i : ℕ) (key : String) (s : System R)
      → lookup key s.pending ≡ none
      → Inv s
      → Inv (enter i key s)
  unfolding enter
  lead-Inv i key s free v =
      rw (free, enter)
        (record {
          is_map = insert-IsMap key s.next_call s.pending v.is_map;
          numbered =
              λ k c e. ground (arith, v.numbered k c, lookup-insert key k s.next_call s.pending);
          unborn = λ c n. v.unborn c (omega arith);
          led = λ j k c l. elim (put-Leads-cases i j (executing key s.next_call) s.threads k c l) [
            | inl (same, (key_same, call_same)) ↦
                ground (arith, eq_iff key k, lookup-insert key k s.next_call s.pending)
            | inr (ne, l') ↦
                ground
                  (arith, eq_iff key k, v.led j k c l', lookup-insert key k s.next_call s.pending)
          ];
          open_call =
              λ j k c e. ground (arith, v.open_call j k c, v.unborn s.next_call (le_refl _));
          result = λ j k c r e. ground (arith, v.result j k c r);
          shared = λ j c r e. ground (arith, v.shared j c r);
          single = λ j j' k l c a b.
              same_leader j j' k l c
                (put-Leads-cases i j (executing key s.next_call) s.threads k c a)
                (put-Leads-cases i j' (executing key s.next_call) s.threads l c b);
        })
    where
      old : (j : ℕ) (k : String) (c : ℕ) → Leads (s.threads j) k c → s.next_call ≢ c
      old j k c l e = absurd (omega (arith, v.numbered k c (v.led j k c l)))

      same_leader :
          (j j' : ℕ) (k l : String) (c : ℕ)
          → ((i ≡ j) × Leads {R = R} (executing key s.next_call) k c)
            ⊎ ((i ≢ j) × Leads (s.threads j) k c)
          → ((i ≡ j') × Leads {R = R} (executing key s.next_call) l c)
            ⊎ ((i ≢ j') × Leads (s.threads j') l c)
          → j ≡ j'
      same_leader j j' k l c (inl (e, _)) (inl (e', _)) = sym e ∙ e'
      same_leader j j' k l c (inl (e, (_, n))) (inr (_, lead)) = absurd (old j' l c lead n)
      same_leader j j' k l c (inr (_, lead)) (inl (e', (_, n))) = absurd (old j k c lead n)
      same_leader j j' k l c (inr (_, lead)) (inr (_, lead')) = v.single j j' k l c lead lead'

  enter-Inv : (i : ℕ) (key : String) (s : System R) → Inv s → Inv (enter i key s)
  enter-Inv i key s v = elim (Option-cases (lookup key s.pending)) [
    | inl free ↦ lead-Inv i key s free v
    | inr (call, e) ↦ joins call e
  ]
    where
      joins : (call : ℕ) → lookup key s.pending ≡ some call → Inv (enter i key s)
      joins call e =
          let joined : enter i key s ≡ move i (waiting call) s =
            unfold enter move in (rw (e, enter)) in
          subst (λ (t : System R). Inv t) (sym joined) (move-Inv i (waiting call) s tt v)

  Step-Inv : {s t : System R} → Step s t → Inv s → Inv t
  Step-Inv {s} (enters i key h) v = enter-Inv i key s v
  Step-Inv {s} (publishes i key call r h) v = publish-Inv i key call r s h v
  Step-Inv {s} (cleans i key call r h) v = clean_up-Inv i key call r s h v
  Step-Inv {s} (wakes i call r h d) v = move-Inv i (returned call r) s d v
  Step-Inv {s} (times_out i call h) v = move-Inv i timed_out s tt v
  Step-Inv {s} (panics i key call h) v = move-Inv i panicked s tt v

  pub Reach-Inv : {s t : System R} → Reach s t → Inv s → Inv t
  Reach-Inv here v = v
  Reach-Inv (next r st) v = Step-Inv st (Reach-Inv r v)
