-- ===== src/Transfers.antt =====
-- The payments that a JoinMarket wallet makes without a coinjoin: `simple_send` and `send` of
-- manager/wasabi_clients/joinmarket_clients/joinmarket_client_base.py. The request, the clock and the
-- sleep are parameters; times are milliseconds.
pub mod Unsent
pub mod Lost
mod Examples
use coinjoin_emulator.Base.{
  ℕ, zero, suc, ◌+◌, ◌-◌, Bool, true, false, String, Option, none, some, List, [], ◌∷◌, ltb,
  if◌then◌else◌, Result, ok, err,
}
use coinjoin_emulator.Jmwalletd.Waiting.{Clock}

-- A request to send an amount to an address: whether jmwalletd answered it.
abbrev pub Request : Type 0 → Type 0
Request S = String → ℕ → S → Result String (Unit {0}) × S

-- How long a payment is tried, and the pauses after a failure and after a payment.
abbrev pub send_budget : ℕ
send_budget = 30000

abbrev pub retry_pause : ℕ
retry_pause = 2000

abbrev pub payment_pause : ℕ
payment_pause = 5000

module _ {S : Type 0} (clock : Clock S) (direct_send : Request S) where
  -- An answer ends the loop; an error is printed, and the loop goes on after a pause.
  unfoldable pub after_request :
      (S → Option (Bool × S)) → Result String (Unit {0}) × S → Option (Bool × S)
  after_request next (ok _, s) = some (true, s)
  after_request next (err _, s) = next (clock.sleep retry_pause s)

  -- The loop of `simple_send`, on fuel. The answer false is that of a payment that timed out.
  unfoldable pub send_until : String → ℕ → ℕ → ℕ → S → Option (Bool × S)
  unfolding after_request
  send_until to amount start zero s = none
  send_until to amount start (suc fuel) s =
      let rest = after_request (send_until to amount start fuel) (direct_send to amount s) in
      if ltb (clock.time s - start) send_budget then rest else some (false, s)

  -- Each turn but the last takes the pause at least: sixteen turns are enough.
  unfoldable pub simple_send : String → ℕ → S → Option (Bool × S)
  unfolding send_until
  simple_send to amount s = send_until to amount (clock.time s) 16 s

  -- What follows a payment, whatever it answered.
  unfoldable pub after_funding : (S → Option S) → Option (Bool × S) → Option S
  after_funding next none = none
  after_funding next (some (_, s)) = next (clock.sleep payment_pause s)

  -- `send`: nothing raises in it, as `simple_send` catches every error.
  unfoldable pub send : List (String × ℕ) → S → Option S
  unfolding simple_send after_funding
  send [] s = some s
  send ((to, amount) ∷ fundings) s = after_funding (send fundings) (simple_send to amount s)
