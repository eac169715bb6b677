-- ===== src/Mixdepths/Sweep.antt =====
-- `_sweep`: the coins of the mixdepth that are not selected are frozen for the payment, and the
-- unfreezing is tried after it, in whatever way it ends. jmwalletd's calls are parameters.
use coinjoin_emulator.Base.{
  ℕ, Bool, true, false, not, ◌&&◌, String, Option, List, [], ◌∷◌, map, keep, ◌==◌, str_eq, any,
  Result, ok, err,
}
use coinjoin_emulator.Base.Sums.{sum}
use coinjoin_emulator.PostmixSpends.{Call, then_call}
use coinjoin_emulator.Mixdepths.{JoinMarketCoin, coin_value}

abbrev pub Outpoint : Type 0
Outpoint = String × ℕ

unfoldable pub same_outpoint : Outpoint → Outpoint → Bool
same_outpoint a b = str_eq a.0 b.0 && a.1 == b.1

unfoldable pub outpoint : JoinMarketCoin → Outpoint
outpoint c = (c.txid, c.index)

-- `in` for a list or a set of outpoints.
unfoldable pub is_among : List Outpoint → Outpoint → Bool
unfolding same_outpoint
is_among us u = any (λ v. same_outpoint v u) us

-- The `txinfo` of a payment.
pub record TransactionInfo : Type 0 where
  pub info_txid : Option String
  pub inputs : List Outpoint

-- The `Sweep` that is recorded.
pub record SweepRecord : Type 0 where
  pub sweep_txid : Option String
  pub sweep_amount : ℕ
  pub sweep_coins : List JoinMarketCoin

-- `freeze_utxo` and `sweep_mixdepth` of `JoinMarketWallet`.
pub record JoinMarketWallet (W : Type 0) : Type 0 where
  pub freeze_utxo : Outpoint → Bool → Call W (Unit {0})
  pub sweep_mixdepth : String → ℕ → Call W TransactionInfo

-- The coins of the mixdepth to freeze: neither selected nor frozen already.
unfoldable pub to_freeze : List JoinMarketCoin → List JoinMarketCoin → ℕ → List Outpoint
unfolding is_among outpoint
to_freeze coins selected depth = map outpoint (
    keep
      (λ c.
        c.mixdepth == depth
        && (not (is_among (map outpoint selected) (outpoint c)) && not c.frozen))
      coins)

-- What is recorded of a payment: the listed coins that it spent.
unfoldable pub swept : List JoinMarketCoin → TransactionInfo → SweepRecord
unfolding is_among outpoint
swept coins info =
    let spent = keep (λ c. is_among info.inputs (outpoint c)) coins in
    record { sweep_txid = info.info_txid; sweep_amount = sum coin_value spent; sweep_coins = spent }

module _ {W : Type 0} (wallet : JoinMarketWallet W) where
  unfoldable pub freeze_each : Bool → List Outpoint → Call W (Unit {0})
  freeze_each b [] w = (ok tt, w)
  freeze_each b (u ∷ us) w = then_call (wallet.freeze_utxo u b w) (λ _. freeze_each b us)

  -- A `finally` clause: an error of its own takes the place of what was there.
  abbrev pub finally_then :
      {A : Type 0} → Result String A → Result String (Unit {0}) × W → Result String A × W
  finally_then r (ok _, w) = (r, w)
  finally_then r (err e, w) = (err e, w)

  -- The `try` and its `finally`.
  unfoldable pub pay_frozen : List Outpoint → String → ℕ → Call W TransactionInfo
  unfolding freeze_each
  pay_frozen us destination depth w =
      let (paid, w1) =
        then_call (freeze_each true us w) (λ _. wallet.sweep_mixdepth destination depth) in
      finally_then paid (freeze_each false us w1)

  -- `_sweep`
  unfoldable pub sweep : List JoinMarketCoin → List JoinMarketCoin → String → ℕ → Call W SweepRecord
  unfolding pay_frozen to_freeze swept
  sweep coins selected destination depth w =
      then_call (pay_frozen (to_freeze coins selected depth) destination depth w)
        (λ info v. (ok (swept coins info), v))
