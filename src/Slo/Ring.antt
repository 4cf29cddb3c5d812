-- ===== src/Slo/Ring.antt =====
-- observability/slo.go: a ring of buckets as a window over the calls. Each call is marked with the
-- number of the bucket that was the current one, counted from the start.
use switch.Prelude.{
  ℕ, suc, ◌+◌, ◌%◌, ◌≤◌, ◌<◌, ◌≡◌, refl, ◌∙◌, inl, inr, Bool, false, ◌&&◌, List, [], ◌∷◌, arith,
  ltb, ◌==◌, if◌then◌else◌, Bool-cases, length, get_or, All, set, length-set, sym, true,
  get_or-set_self, get_or-set_ne, ltb→lt, subst,
}
use switch.Slo.{SloBucket, no_calls, count_call, aggregate, add_call}
use switch.Slo.Marks.{
  Mark, ok, failed, count, count-none, count-cong, sum, sum-cong, sum-zero, sum-add, sum-one,
  All-map,
}

aggregate-sum :
    (bs : List SloBucket)
    → ((aggregate bs).total
        ≡ sum (length bs) (λ j. (get_or bs j no_calls).successes)
          + sum (length bs) (λ j. (get_or bs j no_calls).failures))
      × ((aggregate bs).fails ≡ sum (length bs) (λ j. (get_or bs j no_calls).failures))
unfolding aggregate sum
aggregate-sum [] = (refl, refl)
aggregate-sum (b ∷ bs) =
    let (total, fails) = aggregate-sum bs in (omega (arith, total), omega (arith, fails))

added :
    (success : Bool) (b : SloBucket) (x y : ℕ)
    → b.successes ≡ x
    → b.failures ≡ y
    → ((add_call success b).successes ≡ (if success then 1 else 0) + x)
      × ((add_call success b).failures ≡ (if success then 0 else 1) + y)
added true b x y e e' = (omega (arith, e), omega (arith, e'))
added false b x y e e' = (omega (arith, e), omega (arith, e'))

module _ (n : ℕ) where
  -- The mark is in one of the last n buckets.
  abbrev pub recent : ℕ → Mark → Bool
  recent now m = ltb now (m.tick + n)

  abbrev in_bucket : ℕ → ℕ → Mark → Bool
  in_bucket now j m = recent now m && m.tick % n == j

  -- The ring after the ticks up to `now`.
  pub record Holds (now : ℕ) (ms : List Mark) (idx : ℕ) (bs : List SloBucket) : Type 0 where
    pub size : length bs ≡ n
    pub current : idx ≡ now % n
    pub past : All (λ m. m.tick ≤ now) ms
    pub each :
        (j : ℕ)
        → j < n
        → ((get_or bs j no_calls).successes ≡ count ok (in_bucket now j) ms)
          × ((get_or bs j no_calls).failures ≡ count failed (in_bucket now j) ms)

  sum-buckets :
      (w : Mark → ℕ) (now : ℕ) (ms : List Mark)
      → ((t : ℕ) → t % n < n)
      → sum n (λ j. count w (in_bucket now j) ms) ≡ count w (recent now) ms
  unfolding count
  sum-buckets w now [] below = sum-zero n
  sum-buckets w now (m ∷ ms) below = elim (Bool-cases (recent now m)) [
    | inl seen ↦
        let split =
          sum-cong n (λ j. count w (in_bucket now j) (m ∷ ms))
            (λ j. (if m.tick % n == j then w m else 0) + count w (in_bucket now j) ms)
            (λ j l. ground (arith, seen)) in
        let added =
          sum-add n (λ j. if m.tick % n == j then w m else 0) (λ j. count w (in_bucket now j) ms) in
        let whole : sum n (λ j. count w (in_bucket now j) (m ∷ ms))
            ≡ w m + count w (recent now) ms =
          split
          ∙ added
          ∙ omega
              (arith, sum-one n (m.tick % n) (w m) (below m.tick), sum-buckets w now ms below) in
        whole ∙ ground (arith, seen)
    | inr lost ↦
        let same =
          sum-cong n (λ j. count w (in_bucket now j) (m ∷ ms)) (λ j. count w (in_bucket now j) ms)
            (λ j l. ground (arith, lost)) in
        same ∙ sum-buckets w now ms below ∙ ground (arith, lost)
  ]

  -- What the ring adds up to is what the last n buckets have seen.
  pub aggregate-Holds :
      (now : ℕ) (ms : List Mark) (idx : ℕ) (bs : List SloBucket)
      → ((t : ℕ) → t % n < n)
      → Holds now ms idx bs
      → ((aggregate bs).total ≡ count ok (recent now) ms + count failed (recent now) ms)
        × ((aggregate bs).fails ≡ count failed (recent now) ms)
  aggregate-Holds now ms idx bs below h =
      let good : sum n (λ j. (get_or bs j no_calls).successes) ≡ count ok (recent now) ms =
        sum-cong n _ _ (λ j l. (h.each j l).0) ∙ sum-buckets ok now ms below in
      let bad : sum n (λ j. (get_or bs j no_calls).failures) ≡ count failed (recent now) ms =
        sum-cong n _ _ (λ j l. (h.each j l).1) ∙ sum-buckets failed now ms below in
      let (total, fails) = aggregate-sum bs in
      (total ∙ rw (h.size, good, bad) refl, fails ∙ rw (h.size, bad) refl)

  -- A call in the current bucket.
  pub count-Holds :
      (now : ℕ) (success : Bool) (ms : List Mark) (idx : ℕ) (bs : List SloBucket)
      → ((t : ℕ) → t % n < n)
      → Holds now ms idx bs
      → Holds now (record { tick = now; success = success } ∷ ms) idx (count_call success idx bs)
  unfolding count_call count
  count-Holds now success ms idx bs below h = record {
    size = length-set bs idx _ ∙ h.size;
    current = h.current;
    past = (omega arith, h.past);
    each = λ j l. elim (Bool-cases (idx == j)) [
      | inl mine ↦
          let e : idx ≡ j = ground (arith, mine) in
          let inside : idx < length bs = omega (arith, e, l, h.size) in
          let in_ : in_bucket now idx (record { tick = now; success = success }) ≡ true =
            ground (arith, h.current, below now) in
          let got =
            get_or-set_self bs idx (add_call success (get_or bs idx no_calls)) no_calls inside in
          let old : ((get_or bs idx no_calls).successes ≡ count ok (in_bucket now j) ms)
              × ((get_or bs idx no_calls).failures ≡ count failed (in_bucket now j) ms) =
            rw e (h.each j l) in
          rw⁻¹ e (rw (in_, got) (added success (get_or bs idx no_calls) _ _ old.0 old.1))
      | inr other ↦
          let apart : in_bucket now j (record { tick = now; success = success }) ≡ false =
            ground (arith, h.current, other) in
          let got =
            get_or-set_ne bs idx j (add_call success (get_or bs idx no_calls)) no_calls
              (λ e. ground (arith, e, other)) in
          rw (apart, got) (h.each j l)
    ];
  }

  module _ (wrap : (t : ℕ) → (t + n) % n ≡ t % n)
      (apart : (t c : ℕ) → t < c → c < t + n → (t % n == c % n) ≡ false) where
    gone :
        (now j : ℕ) (m : Mark)
        → (suc now % n == j) ≡ true
        → m.tick ≤ now
        → in_bucket (suc now) j m ≡ false
    gone now j m h p = elim (Bool-cases (ltb (suc now) (m.tick + n))) [
      | inl seen ↦
          ground (arith, seen, h, apart m.tick (suc now) (omega (arith, p)) (ltb→lt _ _ seen))
      | inr lost ↦ ground (arith, lost)
    ]

    kept :
        (now j : ℕ) (m : Mark)
        → (suc now % n == j) ≡ false
        → in_bucket now j m ≡ in_bucket (suc now) j m
    kept now j m h = elim (Bool-cases (m.tick + n == suc now)) [
      | inl last ↦
          let e : m.tick + n ≡ suc now = ground (arith, last) in
          let same : suc now % n ≡ m.tick % n = rw⁻¹ e (wrap m.tick) in ground (arith, h, same)
      | inr other ↦ ground (arith, other)
    ]

  pub next-Holds :
      (now : ℕ) (ms : List Mark) (idx : ℕ) (bs : List SloBucket)
      → ((t : ℕ) → t % n < n)
      → ((t : ℕ) → (t % n + 1) % n ≡ suc t % n)
      → ((t : ℕ) → (t + n) % n ≡ t % n)
      → ((t c : ℕ) → t < c → c < t + n → (t % n == c % n) ≡ false)
      → Holds now ms idx bs
      → Holds (suc now) ms ((idx + 1) % n) (set bs ((idx + 1) % n) no_calls)
  next-Holds now ms idx bs below next wrap apart h =
      let turned : (idx + 1) % n ≡ suc now % n = rw h.current (next now) in
      record {
        size = length-set bs _ _ ∙ h.size;
        current = rw h.current (next now);
        past = All-map ms (λ m p. omega (arith, p)) h.past;
        each = λ j l. elim (Bool-cases ((idx + 1) % n == j)) [
          | inl cleared ↦
              let i = (idx + 1) % n in
              let e : i ≡ j = ground (arith, cleared) in
              let inside : i < length bs = omega (arith, e, l, h.size) in
              let got : get_or (set bs i no_calls) j no_calls ≡ no_calls =
                subst (λ k. get_or (set bs i no_calls) k no_calls ≡ no_calls) e
                  (get_or-set_self bs i no_calls no_calls inside) in
              let none_left =
                All-map ms (λ m p. gone wrap apart now j m (ground (arith, cleared, turned)) p)
                  h.past in
              rw got (sym (count-none ok _ ms none_left), sym (count-none failed _ ms none_left))
          | inr other ↦
              let got =
                get_or-set_ne bs ((idx + 1) % n) j no_calls no_calls
                  (λ e. ground (arith, e, other)) in
              let same =
                All-map ms (λ m p. kept wrap apart now j m (ground (arith, other, turned)))
                  h.past in
              rw got (
                (h.each j l).0 ∙ count-cong ok _ _ ms same,
                (h.each j l).1 ∙ count-cong failed _ _ ms same,
              )
        ];
      }
