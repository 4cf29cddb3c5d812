-- ===== src/Slo/Windows.antt =====
-- observability/slo.go: what the two windows see of a history of calls.
use switch.Prelude.{
  ℕ, suc, ◌+◌, ◌-◌, ◌%◌, ◌<◌, ◌≡◌, Bool, List, [], ◌∷◌, arith, ltb, if◌then◌else◌, zero, ◌≢◌, inl,
  inr, false, ◌==◌, Bool-cases, refl, sym, ap, subst, leb, replicate, length-replicate,
  get_or-replicate,
}
use switch.Slo.{
  SloMonitor, bucket_size, advance_once, steps_after, record_call, advance_by, advance, evaluate,
  count_in, no_calls, SloConfig, Tally, new_slo_monitor, aggregate,
}
use switch.Slo.Marks.{Mark, ok, failed, count}
use switch.Slo.Ring.{Holds, next-Holds, recent, aggregate-Holds, count-Holds}

pub record Call : Type 0 where
  pub now : ℕ
  pub success : Bool

unfoldable pub run : List Call → SloMonitor → SloMonitor
run [] sm = sm
run (c ∷ cs) sm = run cs (record_call c.now c.success sm).0

-- The number of the current bucket, the time of the last change and the calls so far, newest first.
pub record Diary : Type 0 where
  pub tick : ℕ
  pub changed : ℕ
  pub marks : List Mark

abbrev pub turn_since : ℕ → ℕ → Diary → Diary
turn_since last now d =
    if ltb (now - last) bucket_size
    then d
    else record d { tick = d.tick + steps_after (now - last); changed = now }

abbrev pub turn : ℕ → Diary → Diary
turn now d = turn_since d.changed now d

abbrev pub note : Call → Diary → Diary
note c d =
    let e = turn c.now d in
    record e { marks = record { tick = e.tick; success = c.success } ∷ e.marks }

unfoldable pub write : List Call → Diary → Diary
write [] d = d
write (c ∷ cs) d = write cs (note c d)

-- Both rings hold what the diary says.
pub record Follows (d : Diary) (sm : SloMonitor) : Type 0 where
  pub changed : sm.last_advance ≡ d.changed
  pub short : Holds 12 d.tick d.marks sm.short_idx sm.short_buckets
  pub long : Holds 36 d.tick d.marks sm.long_idx sm.long_buckets

below_12 : (t : ℕ) → t % 12 < 12
below_12 t = omega arith

below_36 : (t : ℕ) → t % 36 < 36
below_36 t = omega arith

apart_12 : (t c : ℕ) → t < c → c < t + 12 → (t % 12 == c % 12) ≡ false
apart_12 t c h k =
    let differ : t % 12 ≢ c % 12 = λ e. omega (arith, h, k, e) in ground (arith, differ)

apart_36 : (t c : ℕ) → t < c → c < t + 36 → (t % 36 == c % 36) ≡ false
apart_36 t c h k =
    let differ : t % 36 ≢ c % 36 = λ e. omega (arith, h, k, e) in ground (arith, differ)

advance_once-Follows :
    (tick changed : ℕ) (ms : List Mark) (sm : SloMonitor)
    → Follows (record { tick = tick; changed = changed; marks = ms }) sm
    → Follows (record { tick = suc tick; changed = changed; marks = ms }) (advance_once sm)
unfolding advance_once
advance_once-Follows tick changed ms sm f = record {
  changed = f.changed;
  short =
      next-Holds 12 tick ms sm.short_idx sm.short_buckets below_12 (λ t. omega arith)
        (λ t. omega arith) apart_12 f.short;
  long =
      next-Holds 36 tick ms sm.long_idx sm.long_buckets below_36 (λ t. omega arith)
        (λ t. omega arith) apart_36 f.long;
}

advance_by-Follows :
    (steps tick changed : ℕ) (ms : List Mark) (sm : SloMonitor)
    → Follows (record { tick = tick; changed = changed; marks = ms }) sm
    → Follows (record { tick = tick + steps; changed = changed; marks = ms }) (advance_by steps sm)
unfolding advance_by
advance_by-Follows zero tick changed ms sm f =
    subst (λ t. Follows (record { tick = t; changed = changed; marks = ms }) sm) (omega arith) f
advance_by-Follows (suc steps) tick changed ms sm f =
    subst
      (λ t.
        Follows (record { tick = t; changed = changed; marks = ms })
          (advance_by steps (advance_once sm)))
      (omega arith)
      (advance_by-Follows steps (suc tick) changed ms (advance_once sm)
        (advance_once-Follows tick changed ms sm f))

advance-Follows :
    (now : ℕ) (d : Diary) (sm : SloMonitor) → Follows d sm → Follows (turn now d) (advance now sm)
unfolding advance
advance-Follows now d sm f =
    let turned : Follows (turn_since sm.last_advance now d) (advance now sm) =
      elim (Bool-cases (ltb (now - sm.last_advance) bucket_size)) [
        | inl soon ↦ rw soon f
        | inr later ↦
            let g =
              advance_by-Follows (steps_after (now - sm.last_advance)) d.tick d.changed d.marks sm
                f in
            rw later (record { changed = refl; short = g.short; long = g.long })
      ] in
    subst (λ t. Follows (turn_since t now d) (advance now sm)) f.changed turned

count_in-Follows :
    (c : Call) (d : Diary) (sm : SloMonitor)
    → Follows d sm
    → Follows (note c d) (count_in c.now c.success sm)
unfolding count_in
count_in-Follows c d sm f =
    let a = advance-Follows c.now d sm f in
    record {
      changed = a.changed;
      short = count-Holds 12 _ c.success _ _ _ below_12 a.short;
      long = count-Holds 36 _ c.success _ _ _ below_36 a.long;
    }

note-Follows :
    (c : Call) (d : Diary) (sm : SloMonitor)
    → Follows d sm
    → Follows (note c d) (record_call c.now c.success sm).0
unfolding record_call evaluate
note-Follows c d sm f =
    let g = count_in-Follows c d sm f in
    elim (Bool-cases (leb 30 (count_in c.now c.success sm).records_since)) [
      | inl due ↦ rw due (record { changed = g.changed; short = g.short; long = g.long })
      | inr not_due ↦ rw not_due g
    ]

run-Follows :
    (cs : List Call) (d : Diary) (sm : SloMonitor) → Follows d sm → Follows (write cs d) (run cs sm)
unfolding run write
run-Follows [] d sm f = f
run-Follows (c ∷ cs) d sm f = run-Follows cs (note c d) _ (note-Follows c d sm f)

abbrev pub blank : ℕ → Diary
blank now = record { tick = 0; changed = now; marks = [] }

new-Holds : (n : ℕ) → (0 % n ≡ 0) → Holds n 0 [] 0 (replicate n no_calls)
unfolding count
new-Holds n zero_mod = record {
  size = length-replicate n no_calls;
  current = sym zero_mod;
  past = tt;
  each = λ j l. (
    ap (λ b. b.successes) (get_or-replicate n j no_calls),
    ap (λ b. b.failures) (get_or-replicate n j no_calls),
  );
}

abbrev pub seen : ℕ → Diary → Tally
seen n d = record {
  total = count ok (recent n d.tick) d.marks + count failed (recent n d.tick) d.marks;
  fails = count failed (recent n d.tick) d.marks;
}

-- After any calls at any times the short window adds up to the calls and failures of the last 12
-- buckets and the long one to those of the last 36, where the buckets change as advance says: both
-- windows at once, at most 12 for one call, however long it comes after the last change.
pub run-windows :
    (start : ℕ) (cfg : SloConfig) (cs : List Call)
    → let sm = run cs (new_slo_monitor start cfg) in
      let d = write cs (blank start) in
      (aggregate sm.short_buckets ≡ seen 12 d) × (aggregate sm.long_buckets ≡ seen 36 d)
unfolding new_slo_monitor
run-windows start cfg cs =
    let f =
      run-Follows cs (blank start) (new_slo_monitor start cfg)
        (record { changed = refl; short = new-Holds 12 refl; long = new-Holds 36 refl }) in
    let (short_total, short_fails) = aggregate-Holds 12 _ _ _ _ below_12 f.short in
    let (long_total, long_fails) = aggregate-Holds 36 _ _ _ _ below_36 f.long in
    (ground (arith, short_total, short_fails), ground (arith, long_total, long_fails))
