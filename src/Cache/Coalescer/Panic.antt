-- ===== src/Cache/Coalescer/Panic.antt =====
-- cache/coalescer.go: what a panic of fn leaves behind.
use switch.Prelude.Dict.{lookup, lookup-insert, lookup-remove}
use switch.Prelude.{
  ℕ, ◌<◌, String, ◌≡◌, refl, ◌≢◌, inl, inr, none, some, arith, eq_iff, Option-cases,
}
use switch.Cache.Coalescer.{
  System, Thread, enter, publish, clean_up, move, Step, Reach, executing, cleaning, waiting,
  returned, timed_out, panicked, enters, publishes, cleans, wakes, times_out, panics, here, next,
  new_coalescer,
}
use switch.Cache.Coalescer.Invariant.{
  Inv, Leads, IsQuiet, put-Leads-cases, Leads-cleaning, new-Inv, put-Leads, move-Inv,
  Leads-executing,
}
use switch.Cache.Coalescer.Steps.{Reach-Inv}

module _ {R : Type 0} where
  -- The key has a pending call that is not done and that no goroutine leads.
  pub record IsStuck (key : String) (call : ℕ) (s : System R) : Type 0 where
    pub held : lookup key s.pending ≡ some call
    pub undone : s.done call ≡ none
    pub unled : (i : ℕ) (k : String) → ¬ Leads (s.threads i) k call
    pub below : call < s.next_call

  move-IsStuck :
      (i : ℕ) (t : Thread R) (s : System R) (key : String) (call : ℕ)
      → IsQuiet s t
      → IsStuck key call s
      → IsStuck key call (move i t s)
  unfolding move
  move-IsStuck i t s key call q st = record {
    held = st.held;
    undone = st.undone;
    unled = λ j k l. st.unled j k (put-Leads s i j t k call q l);
    below = st.below;
  }

  publish-IsStuck :
      (i : ℕ) (k : String) (c : ℕ) (r : R) (s : System R) (key : String) (call : ℕ)
      → s.threads i ≡ executing k c
      → IsStuck key call s
      → IsStuck key call (publish i k c r s)
  unfolding publish
  publish-IsStuck i k c r s key call h st =
      let other : c ≢ call = λ e. st.unled i k (rw h (refl, e)) in
      record {
        held = st.held;
        undone = ground (arith, st.undone);
        unled = λ j l lead. elim (put-Leads-cases i j (cleaning k c r) s.threads l call lead) [
          | inl (same, (key_same, call_same)) ↦ other call_same
          | inr (ne, lead') ↦ st.unled j l lead'
        ];
        below = st.below;
      }

  clean_up-IsStuck :
      (i : ℕ) (k : String) (c : ℕ) (r : R) (s : System R) (key : String) (call : ℕ)
      → s.threads i ≡ cleaning k c r
      → Inv s
      → IsStuck key call s
      → IsStuck key call (clean_up i k c r s)
  unfolding clean_up
  clean_up-IsStuck i k c r s key call h v st =
      let other : c ≢ call = λ e. st.unled i k (rw h (refl, e)) in
      record {
        held = ground (
          arith,
          eq_iff k key,
          lookup-remove k key s.pending v.is_map,
          v.led i k c (Leads-cleaning s i k c r h),
          st.held,
          other,
        );
        undone = st.undone;
        unled = λ j l lead. elim (put-Leads-cases i j (returned c r) s.threads l call lead) [
          | inl (same, none_led) ↦ none_led
          | inr (ne, lead') ↦ st.unled j l lead'
        ];
        below = st.below;
      }

  enter-IsStuck :
      (i : ℕ) (k : String) (s : System R) (key : String) (call : ℕ)
      → IsStuck key call s
      → IsStuck key call (enter i k s)
  unfolding enter
  enter-IsStuck i k s key call st = elim (Option-cases (lookup k s.pending)) [
    | inl free ↦
        rw (free, enter)
          (record {
            held =
                ground
                  (arith, eq_iff k key, lookup-insert k key s.next_call s.pending, st.held, free);
            undone = st.undone;
            unled = λ j l lead.
                elim (put-Leads-cases i j (executing k s.next_call) s.threads l call lead) [
                  | inl (same, (key_same, call_same)) ↦ omega (arith, call_same, st.below)
                  | inr (ne, lead') ↦ st.unled j l lead'
                ];
            below = omega (arith, st.below);
          })
    | inr (c, e) ↦
        rw (e, enter)
          (record {
            held = st.held;
            undone = st.undone;
            unled = λ j l lead. elim (put-Leads-cases i j (waiting c) s.threads l call lead) [
              | inl (same, none_led) ↦ none_led
              | inr (ne, lead') ↦ st.unled j l lead'
            ];
            below = st.below;
          })
  ]

  Step-IsStuck :
      {s t : System R} (key : String) (call : ℕ)
      → Step s t
      → Inv s
      → IsStuck key call s
      → IsStuck key call t
  Step-IsStuck {s} key call (enters i k h) v st = enter-IsStuck i k s key call st
  Step-IsStuck {s} key call (publishes i k c r h) v st = publish-IsStuck i k c r s key call h st
  Step-IsStuck {s} key call (cleans i k c r h) v st = clean_up-IsStuck i k c r s key call h v st
  Step-IsStuck {s} key call (wakes i c r h d) v st = move-IsStuck i (returned c r) s key call d st
  Step-IsStuck {s} key call (times_out i c h) v st = move-IsStuck i timed_out s key call tt st
  Step-IsStuck {s} key call (panics i k c h) v st = move-IsStuck i panicked s key call tt st

  Reach-IsStuck :
      {s t : System R} (key : String) (call : ℕ)
      → Reach s t
      → Inv s
      → IsStuck key call s
      → IsStuck key call t
  Reach-IsStuck key call here v st = st
  Reach-IsStuck key call (next r step) v st =
      Step-IsStuck key call step (Reach-Inv r v) (Reach-IsStuck key call r v st)

  panicked-IsStuck :
      (i : ℕ) (key : String) (call : ℕ) (s : System R)
      → s.threads i ≡ executing key call
      → Inv s
      → IsStuck key call (move i panicked s)
  unfolding move
  panicked-IsStuck i key call s h v =
      let lead = Leads-executing s i key call h in
      record {
        held = v.led i key call lead;
        undone = v.open_call i key call h;
        unled = λ j k l. elim (put-Leads-cases i j panicked s.threads k call l) [
          | inl (same, none_led) ↦ none_led
          | inr (ne, l') ↦ ne (v.single i j key k call lead l')
        ];
        below = v.numbered key call (v.led i key call lead);
      }

  stuck_waits :
      (s : System R) (key : String) (call j : ℕ) (r : R)
      → Inv s
      → IsStuck key call s
      → s.threads j ≢ returned call r
  stuck_waits s key call j r v st h = ground (arith, v.shared j call r h, st.undone)

  stuck_joins :
      (s : System R) (key : String) (call j : ℕ)
      → IsStuck key call s
      → (enter j key s).threads j ≡ waiting call
  unfolding enter
  stuck_joins s key call j st = ground (arith, st.held)

  -- When fn panics, the call it was for is never finished: under every later interleaving the key is
  -- still pending, no goroutine that waits for the call gets a result, and every later caller of the
  -- key joins the same call and waits.
  pub panic_sticks :
      {s t : System R} (i j : ℕ) (key : String) (call : ℕ) (r : R)
      → Reach new_coalescer s
      → s.threads i ≡ executing key call
      → Reach (move i panicked s) t
      → (lookup key t.pending ≡ some call)
        × (t.threads j ≢ returned call r)
        × ((enter j key t).threads j ≡ waiting call)
  panic_sticks {s} {t} i j key call r before h after =
      let v = Reach-Inv before new-Inv in
      let v' = move-Inv i panicked s tt v in
      let st = Reach-IsStuck key call after v' (panicked-IsStuck i key call s h v) in
      (st.held, stuck_waits t key call j r (Reach-Inv after v') st, stuck_joins t key call j st)
