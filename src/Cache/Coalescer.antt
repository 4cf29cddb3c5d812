-- ===== src/Cache/Coalescer.antt =====
-- cache/coalescer.go: goroutines that call Do at once, as a step relation. A goroutine is a number;
-- a call is the pending record it makes, by its number. Between two locked sections any goroutine
-- may take the next step. `fn` may return any result, or panic: Do has no deferred call.
pub mod Invariant
pub mod Steps
pub mod Exclusion
pub mod Panic
mod Tests
use switch.Prelude.Dict.{Dict, lookup, insert, remove}
use switch.Prelude.{ℕ, suc, String, ◌≡◌, Option, none, some, [], put}

-- Where a goroutine stands in Do. A value of R is a pair of a value and an error.
pub data Thread (R : Type 0) : Type 0 where
  idle : Thread R
  executing : String → ℕ → Thread R
  cleaning : String → ℕ → R → Thread R
  waiting : ℕ → Thread R
  returned : ℕ → R → Thread R
  timed_out : Thread R
  panicked : Thread R

-- The pending map, the calls that are done (with the result that their waiters read), the number of
-- the next call, and the goroutines.
pub record System (R : Type 0) : Type 0 where
  pub pending : Dict ℕ
  pub done : ℕ → Option R
  pub next_call : ℕ
  pub threads : ℕ → Thread R

module _ {R : Type 0} where
  unfoldable pub new_coalescer : System R
  new_coalescer = record { pending = []; done = λ c. none; next_call = 0; threads = λ i. idle }

  -- The first locked section: join the call in flight, or become its first caller.
  join : ℕ → String → Option ℕ → System R → System R
  join i key (some call) s = record s { threads = put i (waiting call) s.threads }
  join i key none s = record s {
    pending = insert key s.next_call s.pending;
    next_call = suc s.next_call;
    threads = put i (executing key s.next_call) s.threads;
  }

  unfoldable pub enter : ℕ → String → System R → System R
  unfolding join
  enter i key s = join i key (lookup key s.pending) s

  -- fn has returned: publish the result and close the channel.
  unfoldable pub publish : ℕ → String → ℕ → R → System R → System R
  publish i key call r s = record s {
    done = put call (some r) s.done;
    threads = put i (cleaning key call r) s.threads;
  }

  -- The last locked section.
  unfoldable pub clean_up : ℕ → String → ℕ → R → System R → System R
  clean_up i key call r s = record s {
    pending = remove key s.pending;
    threads = put i (returned call r) s.threads;
  }

  unfoldable pub move : ℕ → Thread R → System R → System R
  move i t s = record s { threads = put i t s.threads }

  pub data Step (s : System R) : System R → Type 0 where
    enters : (i : ℕ) (key : String) → s.threads i ≡ idle → Step s (enter i key s)
    publishes :
        (i : ℕ) (key : String) (call : ℕ) (r : R)
        → s.threads i ≡ executing key call
        → Step s (publish i key call r s)
    cleans :
        (i : ℕ) (key : String) (call : ℕ) (r : R)
        → s.threads i ≡ cleaning key call r
        → Step s (clean_up i key call r s)
    wakes :
        (i call : ℕ) (r : R)
        → s.threads i ≡ waiting call
        → s.done call ≡ some r
        → Step s (move i (returned call r) s)
    times_out : (i call : ℕ) → s.threads i ≡ waiting call → Step s (move i timed_out s)
    panics :
        (i : ℕ) (key : String) (call : ℕ)
        → s.threads i ≡ executing key call
        → Step s (move i panicked s)

  pub data Reach (s : System R) : System R → Type 0 where
    here : Reach s s
    next : {t u : System R} → Reach s t → Step t u → Reach s u
