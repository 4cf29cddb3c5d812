-- ===== src/Cache/Coalescer/Invariant.antt =====
-- cache/coalescer.go: what holds of the pending map and the goroutines at any moment.
use switch.Prelude.Dict.{lookup, IsMap}
use switch.Prelude.{
  ℕ, ◌≤◌, ◌<◌, String, ◌≡◌, refl, inl, inr, none, some, arith, ◌==◌, Bool-cases, subst, ◌≢◌, ◌⊎◌,
  put,
}
use switch.Cache.Coalescer.{
  System, Thread, new_coalescer, move, idle, executing, cleaning, waiting, returned, timed_out,
  panicked, publish,
}

module _ {R : Type 0} where
  -- The goroutine is the first caller of the call, for the key.
  abbrev pub Leads : Thread R → String → ℕ → Type 0
  Leads idle k c = ⊥
  Leads (executing key call) k c = (key ≡ k) × (call ≡ c)
  Leads (cleaning key call r) k c = (key ≡ k) × (call ≡ c)
  Leads (waiting call) k c = ⊥
  Leads (returned call r) k c = ⊥
  Leads timed_out k c = ⊥
  Leads panicked k c = ⊥

  pub record Inv (s : System R) : Type 0 where
    pub is_map : IsMap s.pending
    pub numbered : (k : String) (c : ℕ) → lookup k s.pending ≡ some c → c < s.next_call
    pub unborn : (c : ℕ) → s.next_call ≤ c → s.done c ≡ none
    pub led : (i : ℕ) (k : String) (c : ℕ) → Leads (s.threads i) k c → lookup k s.pending ≡ some c
    pub open_call : (i : ℕ) (k : String) (c : ℕ) → s.threads i ≡ executing k c → s.done c ≡ none
    pub result :
        (i : ℕ) (k : String) (c : ℕ) (r : R) → s.threads i ≡ cleaning k c r → s.done c ≡ some r
    pub shared : (i c : ℕ) (r : R) → s.threads i ≡ returned c r → s.done c ≡ some r
    pub single :
        (i j : ℕ) (k l : String) (c : ℕ) → Leads (s.threads i) k c → Leads (s.threads j) l c → i ≡ j

  pub new-Inv : Inv (new_coalescer {R = R})
  unfolding new_coalescer IsMap lookup
  new-Inv = record {
    is_map = tt;
    numbered = λ k c h. cc;
    unborn = λ c h. refl;
    led = λ i k c h. absurd h;
    open_call = λ i k c h. cc;
    result = λ i k c r h. cc;
    shared = λ i c r h. cc;
    single = λ i j k l c h h'. absurd h;
  }

  -- A goroutine that leads no call moves to a place that is none, and returns only a result that is
  -- there.
  abbrev pub IsQuiet : System R → Thread R → Type 0
  IsQuiet s (executing k c) = ⊥
  IsQuiet s (cleaning k c r) = ⊥
  IsQuiet s (returned c r) = s.done c ≡ some r
  IsQuiet s idle = Unit
  IsQuiet s (waiting c) = Unit
  IsQuiet s timed_out = Unit
  IsQuiet s panicked = Unit

  quiet-not-Leads : (s : System R) (t : Thread R) (k : String) (c : ℕ) → IsQuiet s t → ¬ Leads t k c
  quiet-not-Leads s idle k c q h = h
  quiet-not-Leads s (executing key call) k c q h = q
  quiet-not-Leads s (cleaning key call r) k c q h = q
  quiet-not-Leads s (waiting call) k c q h = h
  quiet-not-Leads s (returned call r) k c q h = h
  quiet-not-Leads s timed_out k c q h = h
  quiet-not-Leads s panicked k c q h = h

  pub put-Leads :
      (s : System R) (i j : ℕ) (t : Thread R) (k : String) (c : ℕ)
      → IsQuiet s t
      → Leads (put i t s.threads j) k c
      → Leads (s.threads j) k c
  put-Leads s i j t k c q h = elim (Bool-cases (i == j)) [
    | inl e ↦ absurd (quiet-not-Leads s t k c q (rw e at h))
    | inr e ↦ rw e at h
  ]

  pub move-Inv : (i : ℕ) (t : Thread R) (s : System R) → IsQuiet s t → Inv s → Inv (move i t s)
  unfolding move
  move-Inv i t s q v = record {
    is_map = v.is_map;
    numbered = v.numbered;
    unborn = v.unborn;
    led = λ j k c h. v.led j k c (put-Leads s i j t k c q h);
    open_call = λ j k c h. ground (arith, v.open_call j k c, q);
    result = λ j k c r h. ground (arith, v.result j k c r, q);
    shared = λ j c r h. ground (arith, v.shared j c r, q);
    single = λ j j' k l c h h'.
        v.single j j' k l c (put-Leads s i j t k c q h) (put-Leads s i j' t l c q h');
  }

  pub put-Leads-cases :
      (i j : ℕ) (t : Thread R) (f : ℕ → Thread R) (k : String) (c : ℕ)
      → Leads (put i t f j) k c
      → ((i ≡ j) × Leads t k c) ⊎ ((i ≢ j) × Leads (f j) k c)
  put-Leads-cases i j t f k c h = elim (Bool-cases (i == j)) [
    | inl e ↦ inl (ground arith, rw e at h)
    | inr e ↦ inr (ground arith, rw e at h)
  ]

  pub Leads-executing :
      (s : System R) (i : ℕ) (key : String) (call : ℕ)
      → s.threads i ≡ executing key call
      → Leads (s.threads i) key call
  Leads-executing s i key call h = rw h (refl, refl)

  pub Leads-cleaning :
      (s : System R) (i : ℕ) (key : String) (call : ℕ) (r : R)
      → s.threads i ≡ cleaning key call r
      → Leads (s.threads i) key call
  Leads-cleaning s i key call r h = rw h (refl, refl)

  -- Two goroutines that lead one call, one of them the given one, are the same.
  module _ (s : System R) (v : Inv s) (i : ℕ) (key : String) (call : ℕ)
      (lead : Leads (s.threads i) key call) where
    other_executing : (j : ℕ) (k : String) (c : ℕ) → i ≢ j → s.threads j ≡ executing k c → call ≢ c
    other_executing j k c ne h e =
        ne (v.single i j key k call lead (rw e (Leads-executing s j k c h)))

    other_cleaning :
        (j : ℕ) (k : String) (c : ℕ) (r : R) → i ≢ j → s.threads j ≡ cleaning k c r → call ≢ c
    other_cleaning j k c r ne h e =
        ne (v.single i j key k call lead (rw e (Leads-cleaning s j k c r h)))

  pub publish-Inv :
      (i : ℕ) (key : String) (call : ℕ) (r : R) (s : System R)
      → s.threads i ≡ executing key call
      → Inv s
      → Inv (publish i key call r s)
  unfolding publish
  publish-Inv i key call r s h v =
      let lead = Leads-executing s i key call h in
      let open_one = v.open_call i key call h in
      let old = v.numbered key call (v.led i key call lead) in
      record {
        is_map = v.is_map;
        numbered = v.numbered;
        unborn = λ c n. ground (arith, v.unborn c n, old);
        led = λ j k c l. v.led j k c (was_leading j k c l);
        open_call =
            λ j k c e. ground (arith, v.open_call j k c, other_executing s v i key call lead j k c);
        result = λ j k c r' e.
            ground (arith, v.result j k c r', other_cleaning s v i key call lead j k c r');
        shared = λ j c r' e. ground (arith, v.shared j c r', open_one);
        single = λ j j' k l c a b. v.single j j' k l c (was_leading j k c a) (was_leading j' l c b);
      }
    where
      was_leading :
          (j : ℕ) (k : String) (c : ℕ)
          → Leads (put i (cleaning key call r) s.threads j) k c
          → Leads (s.threads j) k c
      was_leading j k c l = elim (put-Leads-cases i j (cleaning key call r) s.threads k c l) [
        | inl (same, (key_same, call_same)) ↦
            subst (λ n. Leads (s.threads n) k c) same (rw h (key_same, call_same))
        | inr (ne, l') ↦ l'
      ]
