-- ===== src/Readiness.antt =====
-- manager/bitcoin_readiness.py: when the Bitcoin node is ready. The node is a parameter: what each
-- sample before the deadline answers, in order. A progress is in hundredths.
pub mod Quiet
mod Examples
use coinjoin_emulator.Base.{
  ℕ, zero, suc, ◌+◌, Bool, true, false, not, ◌&&◌, Option, none, some, List, [], ◌∷◌, ltb, leb,
  ◌==◌, if◌then◌else◌, Result, ok, err,
}

-- MINIMUM_READY_BLOCKS and QUIET_SAMPLE_COUNT
abbrev pub minimum_ready_blocks : ℕ
minimum_ready_blocks = 200

abbrev pub quiet_sample_count : ℕ
quiet_sample_count = 6

-- What `_is_synchronized` reads of `getblockchaininfo`; an absent or ill-typed entry is `none`.
pub record ChainInfo : Type 0 where
  pub blocks : Option ℕ
  pub headers : Option ℕ
  pub initial_download : Option Bool
  pub progress : Option ℕ

unfoldable pub is_number : Option ℕ → ℕ → Bool
is_number none n = false
is_number (some m) n = m == n

-- `is False`
unfoldable pub is_false : Option Bool → Bool
is_false (some false) = true
is_false _ = false

unfoldable pub is_complete : Option ℕ → Bool
is_complete none = false
is_complete (some p) = leb 100 p

-- `_is_synchronized`
unfoldable pub is_synchronized : ChainInfo → Option ℕ → Bool
unfolding is_number is_false is_complete
is_synchronized i none = false
is_synchronized i (some n) =
    is_number i.headers n && (is_false i.initial_download && is_complete i.progress)

-- A call of the node: it raises an error that is waited out, or answers.
pub data Sample (A : Type 0) : Type 0 where
  rpc_error : Sample A
  answer : A → Sample A

-- One sample of `_wait_for_synchronized_chain_and_wallet`: the block count, the chain, and whether the
-- funding wallet can be made ready.
pub record StartSample : Type 0 where
  pub block_count : ℕ
  pub info : ChainInfo
  pub wallet_ready : Bool

unfoldable pub is_ready : Sample StartSample → Bool
unfolding is_synchronized
is_ready rpc_error = false
is_ready (answer s) =
    ltb minimum_ready_blocks s.block_count
    && (is_synchronized s.info (some s.block_count) && s.wallet_ready)

-- `_wait_for_synchronized_chain_and_wallet`: the samples that are left when it returns, if it does
-- before the deadline.
unfoldable pub wait_synchronized : List (Sample StartSample) → Option (List (Sample StartSample))
unfolding is_ready
wait_synchronized [] = none
wait_synchronized (s ∷ ss) = if is_ready s then some ss else wait_synchronized ss

-- `_wait_for_smart_fee_estimate`, with the feerate of each answer, if it has one.
unfoldable pub has_feerate : Sample (Option ℕ) → Bool
has_feerate rpc_error = false
has_feerate (answer none) = false
has_feerate (answer (some rate)) = true

unfoldable pub wait_fee_estimate : List (Sample (Option ℕ)) → Option (List (Sample (Option ℕ)))
unfolding has_feerate
wait_fee_estimate [] = none
wait_fee_estimate (s ∷ ss) = if has_feerate s then some ss else wait_fee_estimate ss

-- The variables of `_wait_for_quiet_chain_tip`.
pub record TipState : Type 0 where
  pub streak : ℕ
  pub quiet_height : Option ℕ

-- The tip of a sample: its height, if the chain is synchronized there.
unfoldable pub tip : Sample ChainInfo → Option ℕ
unfolding is_synchronized
tip rpc_error = none
tip (answer i) = if is_synchronized i i.blocks then i.blocks else none

unfoldable pub see_tip : TipState → Option ℕ → TipState
unfolding is_number
see_tip s none = record { streak = 0; quiet_height = none }
see_tip s (some h) =
    if is_number s.quiet_height h
    then record { streak = s.streak + 1; quiet_height = s.quiet_height }
    else record { streak = 1; quiet_height = some h }

-- The loop of `_wait_for_quiet_chain_tip`, with the samples that are left when it returns.
unfoldable pub wait_quiet_from :
    TipState → List (Sample ChainInfo) → Option (List (Sample ChainInfo))
unfolding see_tip tip
wait_quiet_from s [] = none
wait_quiet_from s (x ∷ xs) =
    let seen = see_tip s (tip x) in
    let rest = wait_quiet_from seen xs in
    if leb quiet_sample_count seen.streak then some xs else rest

unfoldable pub wait_quiet : List (Sample ChainInfo) → Option (List (Sample ChainInfo))
unfolding wait_quiet_from
wait_quiet xs = wait_quiet_from (record { streak = 0; quiet_height = none }) xs
