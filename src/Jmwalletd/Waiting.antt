-- ===== src/Jmwalletd/Waiting.antt =====
-- `_retry_until_deadline` and `wait_wallet`: a wallet is created and then displayed, each with its own
-- budget. The two steps, the clock and the sleep are parameters; times are milliseconds.
pub mod Deadline
use coinjoin_emulator.Base.{
  ℕ, zero, suc, ◌+◌, ◌-◌, ◌*◌, Bool, true, false, Option, none, some, leb, if◌then◌else◌, Result,
  ok, err,
}

abbrev pub first_delay : ℕ
first_delay = 1000

abbrev pub longest_delay : ℕ
longest_delay = 8000

-- `min`
abbrev pub min : ℕ → ℕ → ℕ
min a b = if leb a b then a else b

-- The clock that a waiting client reads.
pub record Clock (S : Type 0) : Type 0 where
  pub time : S → ℕ
  pub sleep : ℕ → S → S

abbrev pub Step : Type 0 → Type 0 → Type 0
Step E S = S → Result E (Unit {0}) × S

module _ {E S : Type 0} (clock : Clock S) where
  -- After one attempt: done, out of time, or asleep before the next attempt, with the delay doubled.
  unfoldable pub after_attempt :
      ℕ
      → ℕ
      → (ℕ → S → Option (Result E (Unit {0}) × S))
      → Result E (Unit {0}) × S
      → Option (Result E (Unit {0}) × S)
  after_attempt deadline delay next (ok _, s) = some (ok tt, s)
  after_attempt deadline delay next (err e, s) =
      if leb deadline (clock.time s)
      then some (err e, s)
      else next (min (delay * 2) longest_delay)
          (clock.sleep (min delay (deadline - clock.time s)) s)

  -- The `while True` loop, on fuel: nothing comes back when the fuel is used.
  unfoldable pub retry_from : Step E S → ℕ → ℕ → ℕ → S → Option (Result E (Unit {0}) × S)
  unfolding after_attempt
  retry_from step deadline zero delay s = none
  retry_from step deadline (suc fuel) delay s =
      after_attempt deadline delay (retry_from step deadline fuel) (step s)

  -- `_retry_until_deadline`: each delay is at least a millisecond, so the time that is left bounds the
  -- attempts.
  unfoldable pub retry_until_deadline : Step E S → ℕ → S → Option (Result E (Unit {0}) × S)
  unfolding retry_from
  retry_until_deadline step deadline s =
      retry_from step deadline (suc (deadline - clock.time s)) first_delay s

  -- What `wait_wallet` makes of the display phase.
  unfoldable pub displayed : Option (Result E (Unit {0}) × S) → Option (Bool × S)
  displayed none = none
  displayed (some (ok _, s)) = some (true, s)
  displayed (some (err _, s)) = some (false, s)

  -- The display phase comes only after a creation, and has a budget of its own.
  unfoldable pub after_create : Step E S → ℕ → Option (Result E (Unit {0}) × S) → Option (Bool × S)
  unfolding retry_until_deadline displayed
  after_create display budget none = none
  after_create display budget (some (err _, s)) = some (false, s)
  after_create display budget (some (ok _, s)) =
      displayed (retry_until_deadline display (clock.time s + budget) s)

  -- `wait_wallet`
  unfoldable pub wait_wallet : Step E S → Step E S → ℕ → S → Option (Bool × S)
  unfolding retry_until_deadline after_create
  wait_wallet create display budget s =
      after_create display budget (retry_until_deadline create (clock.time s + budget) s)
