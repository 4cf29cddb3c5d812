-- ===== src/Concurrency/Shedder.antt =====
-- server/shedding.go: LoadShedder. Its counters are atomic and its methods take no lock, so that a
-- goroutine in Allow is seen between its two additions: a run is any sequence of these steps.
use switch.Prelude.{ℕ, suc, ◌+◌, ◌-◌, ◌≤◌, ◌<◌, ◌≡◌, refl, ◌∙◌, arith, ltb, ◌==◌, if◌then◌else◌}

-- The counters, and where the goroutines are: `admitted` were let in and are not done, `refusing`
-- have counted themselves in and not yet out.
pub record LoadShedder : Type 0 where
  pub max : ℕ
  pub in_flight : ℕ
  pub shed : ℕ
  pub admitted : ℕ
  pub refusing : ℕ

unfoldable pub new_load_shedder : ℕ → LoadShedder
new_load_shedder max = record {
  max = if max == 0 then 5000 else max;
  in_flight = 0;
  shed = 0;
  admitted = 0;
  refusing = 0;
}

-- Allow up to its test: the count, and the answer if it is yes.
unfoldable pub count_in : LoadShedder → LoadShedder
count_in ls =
    let current = suc ls.in_flight in
    if ltb ls.max current
    then record ls { in_flight = current; refusing = suc ls.refusing }
    else record ls { in_flight = current; admitted = suc ls.admitted }

-- The rest of an Allow that answers no.
unfoldable pub count_out : LoadShedder → LoadShedder
count_out ls = record ls {
  in_flight = ls.in_flight - 1;
  shed = suc ls.shed;
  refusing = ls.refusing - 1;
}

unfoldable pub done : LoadShedder → LoadShedder
done ls = record ls { in_flight = ls.in_flight - 1; admitted = ls.admitted - 1 }

pub data Step (ls : LoadShedder) : LoadShedder → Type 0 where
  comes : Step ls (count_in ls)
  refuses : 0 < ls.refusing → Step ls (count_out ls)
  finishes : 0 < ls.admitted → Step ls (done ls)

pub data Reach (ls : LoadShedder) : LoadShedder → Type 0 where
  here : Reach ls ls
  next : {b c : LoadShedder} → Reach ls b → Step b c → Reach ls c

record Inv (ls : LoadShedder) : Type 0 where
  counted : ls.in_flight ≡ ls.admitted + ls.refusing
  bounded : ls.admitted ≤ ls.max

Step-Inv : {a b : LoadShedder} → Step a b → Inv a → Inv b
unfolding count_in count_out done
Step-Inv {a} comes v = ground (arith, v.counted, v.bounded)
Step-Inv {a} (refuses h) v = record { counted = omega (arith, h, v.counted); bounded = v.bounded }
Step-Inv {a} (finishes h) v = record {
  counted = omega (arith, h, v.counted);
  bounded = omega (arith, v.bounded);
}

Step-max : {a b : LoadShedder} → Step a b → b.max ≡ a.max
unfolding count_in count_out done
Step-max {a} comes = ground arith
Step-max {a} (refuses h) = refl
Step-max {a} (finishes h) = refl

Reach-Inv : {a b : LoadShedder} → Reach a b → Inv a → Inv b
Reach-Inv here v = v
Reach-Inv (next r s) v = Step-Inv s (Reach-Inv r v)

Reach-max : {a b : LoadShedder} → Reach a b → b.max ≡ a.max
Reach-max here = refl
Reach-max (next r s) = Step-max s ∙ Reach-max r

-- Under every interleaving no more requests are admitted and not done than the maximum, and the
-- counter is that of those admitted and of those about to be refused.
pub admitted-le :
    {ls : LoadShedder} (max : ℕ)
    → 0 < max
    → Reach (new_load_shedder max) ls
    → (ls.admitted ≤ max) × (ls.in_flight ≡ ls.admitted + ls.refusing)
admitted-le {ls} max pos r =
    let start : Inv (new_load_shedder max) =
      unfold new_load_shedder in (record { counted = refl; bounded = ground arith }) in
    let v = Reach-Inv r start in
    let limit : (new_load_shedder max).max ≡ max = unfold new_load_shedder in (ground arith) in
    (omega (arith, v.bounded, Reach-max r, limit), v.counted)
