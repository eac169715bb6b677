-- ===== src/Rounds.antt =====
-- JoinMarket round events: manager/engine/joinmarket/round_event_record.py, the exported block
-- records beside it, events.py and round_confirmation.py. The Python code shares one dictionary
-- between the list of events and the index by destination; here the list is the store, and a
-- reference to an event is its place in it.
pub mod Reconcile
pub mod Refs
pub mod Groups
pub mod Marks
pub mod Agreement
pub mod Verdict
pub mod Confirm
pub mod Export
pub mod Examples
use coinjoin_emulator.Base.{
  ℕ, zero, suc, ◌+◌, Bool, true, false, ◌&&◌, ◌||◌, String, Option, none, some, List, [], ◌∷◌, ◌++◌,
  str_eq, ◌==◌, if◌then◌else◌, any, length,
}

-- EVENT_STATUS_*
pub data Status : Type 0 where
  started failed confirmed multiple_matches duplicate_destination : Status

-- EXECUTION_STATUS_*
pub data ExecutionStatus : Type 0 where
  requested started unknown failed : ExecutionStatus

-- `DestinationMatch`
pub record DestinationMatch : Type 0 where
  pub txid : String
  pub block_height : ℕ

-- The entries of a round event that the emulator reads or writes; an absent entry is `none`.
pub record RoundEvent : Type 0 where
  pub round_id : ℕ
  pub taker : String
  pub status : Status
  pub execution_status : Option ExecutionStatus
  pub destination : Option String
  pub amount_sats : Option ℕ
  pub counterparties : Option ℕ
  pub mixdepth : Option ℕ
  pub start_block : ℕ
  pub start_chain_height : Option ℕ
  pub destination_matches : List DestinationMatch
  pub match_source : Option String
  pub failure_reason : Option String
  pub stop_block : Option ℕ
  pub export_round_id : Option ℕ

-- `value if isinstance(value, str) and value else None`
unfoldable pub non_empty : Option String → Option String
non_empty none = none
non_empty (some s) = if str_eq s "" then none else some s

unfoldable pub destination_address : RoundEvent → Option String
unfolding non_empty
destination_address e = non_empty e.destination

unfoldable pub is_status : Status → Status → Bool
is_status Status.started Status.started = true
is_status Status.failed Status.failed = true
is_status Status.confirmed Status.confirmed = true
is_status Status.multiple_matches Status.multiple_matches = true
is_status Status.duplicate_destination Status.duplicate_destination = true
is_status _ _ = false

-- The execution status that a status stands for before reconciliation, if it is one.
unfoldable pub local_execution : Status → Option ExecutionStatus
local_execution Status.started = some ExecutionStatus.started
local_execution Status.failed = some ExecutionStatus.failed
local_execution _ = none

-- `dict.setdefault`
unfoldable pub set_default :
    Option ExecutionStatus → Option ExecutionStatus → Option ExecutionStatus
set_default none fallback = fallback
set_default (some s) fallback = some s

unfoldable pub preserve_execution_status : RoundEvent → RoundEvent
unfolding set_default local_execution
preserve_execution_status e = record e {
  execution_status = set_default e.execution_status (local_execution e.status);
}

unfoldable pub mark_duplicate_destination : RoundEvent → RoundEvent
unfolding preserve_execution_status
mark_duplicate_destination e = record (preserve_execution_status e) {
  status = Status.duplicate_destination;
}

unfoldable pub same_match : DestinationMatch → DestinationMatch → Bool
same_match a b = str_eq a.txid b.txid && a.block_height == b.block_height

-- `if candidate not in matches: matches.append(candidate)`
unfoldable pub add_new : DestinationMatch → List DestinationMatch → List DestinationMatch
unfolding same_match
add_new m ms = if any (λ x. same_match x m) ms then ms else ms ++ m ∷ []

-- The status after a match was recorded.
unfoldable pub matched_status : Status → List DestinationMatch → Status
unfolding is_status
matched_status old ms =
    if is_status old Status.duplicate_destination
    then old
    else if length ms == 1
    then Status.confirmed
    else Status.multiple_matches

unfoldable pub add_destination_match : DestinationMatch → RoundEvent → RoundEvent
unfolding preserve_execution_status add_new matched_status
add_destination_match m e =
    let kept = preserve_execution_status e in
    let ms = add_new m kept.destination_matches in
    record kept {
      destination_matches = ms;
      match_source = some "destination_output";
      status = matched_status kept.status ms;
    }

unfoldable pub sole_txid : List DestinationMatch → Option String
sole_txid (m ∷ []) = some m.txid
sole_txid _ = none

unfoldable pub confirmed_destination_txid : RoundEvent → Option String
unfolding sole_txid is_status
confirmed_destination_txid e =
    if is_status e.status Status.confirmed then sole_txid e.destination_matches else none

-- `copy_with_export_round_id`
unfoldable pub copy_with_export_round_id : ℕ → RoundEvent → RoundEvent
copy_with_export_round_id i e = record e { export_round_id = some i }
