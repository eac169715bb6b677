-- ===== src/Mixdepths/Payment.antt =====
-- `stop_coinjoin`, `check_mixed_coins` and `send_mixed_coins` of JoinMarketPostmixWallet.
use coinjoin_emulator.Base.{
  ℕ, Bool, not, ◌&&◌, String, Option, none, some, List, [], ◌∷◌, ◌++◌, map, leb, str_eq,
  if◌then◌else◌, Result, ok, err, ◌>>=◌,
}
use coinjoin_emulator.Base.Sums.{sum}
use coinjoin_emulator.Base.Sort.{sort_by}
use coinjoin_emulator.PostmixSpends.{Call, then_call}
use coinjoin_emulator.Mixdepths.{JoinMarketCoin, Depths, MixdepthError, select}
use coinjoin_emulator.Mixdepths.Sweep.{JoinMarketWallet, SweepRecord, sweep}

-- What `stop_coinjoin` raises.
pub data StopError : Type 0 where
  no_state in_coinjoin not_stopped : StopError

-- The service state of a poll: whether the maker runs, and whether a coinjoin is in process.
abbrev pub ServiceState : Type 0
ServiceState = Option (Bool × Bool)

-- The polls until the deadline, after the maker was told to stop.
unfoldable pub wait_idle : Bool → List ServiceState → Result StopError (Unit {0})
wait_idle is_maker [] = err StopError.not_stopped
wait_idle is_maker (none ∷ ss) = err StopError.no_state
wait_idle is_maker (some (maker_runs, mixing) ∷ ss) =
    let rest = wait_idle is_maker ss in
    if not maker_runs && not mixing
    then ok tt
    else if not is_maker
    then err StopError.in_coinjoin
    else rest

-- `check_mixed_coins`
unfoldable pub check_mixed_coins :
    List String
    → List JoinMarketCoin
    → Option ℕ
    → Option (String → ℕ → Bool)
    → Result MixdepthError (Unit {0})
unfolding select
check_mixed_coins coinjoins coins value unspent =
    select coinjoins coins value unspent >>= λ _. ok tt

-- The description of a payment.
pub record MixedPayment : Type 0 where
  pub txid : Option String
  pub txids : List (Option String)
  pub amount : ℕ
  pub payment_coins : List JoinMarketCoin

abbrev first_txid : List SweepRecord → Option String
first_txid [] = none
first_txid (s ∷ ss) = s.sweep_txid

abbrev all_coins : List SweepRecord → List JoinMarketCoin
all_coins [] = []
all_coins (s ∷ ss) = s.sweep_coins ++ all_coins ss

unfoldable pub describe : List SweepRecord → MixedPayment
describe ss = record {
  txid = first_txid ss;
  txids = map (λ s. s.sweep_txid) ss;
  amount = sum (λ s. s.sweep_amount) ss;
  payment_coins = all_coins ss;
}

-- `sorted(by_mixdepth.items())`, whose keys are distinct.
unfoldable pub by_depth : Depths → Depths
unfolding sort_by
by_depth = sort_by (λ a b. leb a.0 b.0)

module _ {W : Type 0} (wallet : JoinMarketWallet W) where
  -- One transaction for each mixdepth, in their order, until one raises.
  unfoldable pub sweep_depths : List JoinMarketCoin → String → Depths → Call W (List SweepRecord)
  unfolding sweep
  sweep_depths coins destination [] w = (ok [], w)
  sweep_depths coins destination ((d, selected) ∷ g) w =
      then_call (sweep wallet coins selected destination d w)
        (λ s w1. then_call (sweep_depths coins destination g w1) (λ ss w2. (ok (s ∷ ss), w2)))

  -- What `send_mixed_coins` raises itself, or a call's error.
  unfoldable pub pay_selected :
      List JoinMarketCoin
      → String
      → Result MixdepthError Depths
      → W
      → Result MixdepthError (Result String MixedPayment) × W
  unfolding sweep_depths describe by_depth
  pay_selected coins destination (err e) w = (err e, w)
  pay_selected coins destination (ok g) w =
      let (paid, v) =
        then_call (sweep_depths coins destination (by_depth g) w) (λ ss v. (ok (describe ss), v)) in
      (ok paid, v)

  -- `send_mixed_coins`, of the coins that the wallet lists.
  unfoldable pub send_mixed_coins :
      List String
      → List JoinMarketCoin
      → String
      → Option ℕ
      → Option (String → ℕ → Bool)
      → String
      → W
      → Result MixdepthError (Result String MixedPayment) × W
  unfolding pay_selected select
  send_mixed_coins coinjoins coins destination value unspent selection w =
      if not (str_eq selection "amount")
      then (err (MixdepthError.unsupported_selection selection), w)
      else pay_selected coins destination (select coinjoins coins value unspent) w
