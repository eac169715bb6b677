-- ===== src/Funding/Distributor.antt =====
-- The funding of the distributor: `fund_distributor` of manager/engine/engine_base.py, with the total in
-- satoshis. The node, the distributor and the sleep are parameters.
pub mod Funded
mod Examples
use coinjoin_emulator.Base.{
  ℕ, zero, suc, ◌+◌, ◌-◌, ◌*◌, ◌/◌, ◌≤◌, ◌<◌, ◌≡◌, refl, ◌∙◌, ap, Bool, true, false, String, Option,
  none, some, ltb, if◌then◌else◌, Result, ok, err, arith, Bool-cases, inl, inr, ltb→lt, not_ltb→le,
  subst, sym,
}
use coinjoin_emulator.PostmixSpends.{Call, then_call}

-- DISTRIBUTOR_UTXOS
abbrev pub distributor_utxos : ℕ
distributor_utxos = 200

-- `math.ceil` of the share of each coin.
unfoldable pub per_utxo_sats : ℕ → ℕ
per_utxo_sats total = (total + 199) / distributor_utxos

-- What the funding calls.
pub record FundingCalls (W : Type 0) : Type 0 where
  pub get_new_address : Call W String
  pub fund_address : String → ℕ → Call W (Unit {0})
  pub get_balance : Call W ℕ
  pub sleep : W → W

module _ {W : Type 0} (calls : FundingCalls W) where
  -- So many payments of an amount, each to a new address.
  unfoldable pub fund_addresses : ℕ → ℕ → Call W (Unit {0})
  fund_addresses zero sats w = (ok tt, w)
  fund_addresses (suc n) sats w =
      then_call (calls.get_new_address w)
        (λ to v. then_call (calls.fund_address to sats v) (λ _. fund_addresses n sats))

  -- What a look at the balance leads to.
  unfoldable pub after_balance :
      ℕ
      → (W → Option (Result String (Unit {0}) × W))
      → Result String ℕ × W
      → Option (Result String (Unit {0}) × W)
  after_balance total next (err e, w) = some (err e, w)
  after_balance total next (ok balance, w) =
      let rest = next (calls.sleep w) in if ltb balance total then rest else some (ok tt, w)

  -- The `while` loop, on fuel: nothing comes back when the fuel is used.
  unfoldable pub wait_balance : ℕ → ℕ → W → Option (Result String (Unit {0}) × W)
  unfolding after_balance
  wait_balance total zero w = none
  wait_balance total (suc fuel) w =
      after_balance total (wait_balance total fuel) (calls.get_balance w)

  -- An error of a payment ends the funding.
  unfoldable pub after_payments :
      ℕ → ℕ → Result String (Unit {0}) × W → Option (Result String (Unit {0}) × W)
  unfolding wait_balance
  after_payments total fuel (err e, w) = some (err e, w)
  after_payments total fuel (ok _, w) = wait_balance total fuel w

  -- `fund_distributor`
  unfoldable pub fund_distributor : ℕ → ℕ → W → Option (Result String (Unit {0}) × W)
  unfolding fund_addresses after_payments per_utxo_sats
  fund_distributor total fuel w =
      after_payments total fuel (fund_addresses distributor_utxos (per_utxo_sats total) w)
