-- ===== src/Rounds/Confirm.antt =====
-- round_confirmation.py: started rounds against the blocks that the node mined. The node is a
-- parameter: its tip, and the transactions of the block at each height. The scanned height starts
-- at -1, so the blocks from 0 on are walked.
pub mod Counting
use mathlib.Core.List.{reverse}
use coinjoin_emulator.Base.{
  ℕ, zero, suc, ◌+◌, ◌-◌, Bool, true, false, ◌&&◌, String, Option, none, some, List, [], ◌∷◌,
  str_eq, if◌then◌else◌, keep, count_if, Result, ok, err, or_default,
}
use coinjoin_emulator.Base.Int.{ℤ, pos, negsuc}
use coinjoin_emulator.Rounds.{Status, ExecutionStatus, RoundEvent, is_status}
use coinjoin_emulator.Rounds.Reconcile.{Transaction, RoundError, reconcile_round_event_destinations}

unfoldable pub is_started : RoundEvent → Bool
unfolding is_status
is_started e = is_status e.status Status.started

unfoldable pub is_confirmed : RoundEvent → Bool
unfolding is_status
is_confirmed e = is_status e.status Status.confirmed

-- `range(start, start + count)` with the block of each height
unfoldable pub blocks_from : (ℕ → List Transaction) → ℕ → ℕ → List (ℕ × List Transaction)
blocks_from block_at start zero = []
blocks_from block_at start (suc n) = (start, block_at start) ∷ blocks_from block_at (start + 1) n

-- The first height after the scanned one.
unfoldable pub next_height : ℤ → ℕ
next_height (pos n) = n + 1
next_height (negsuc _) = 0

-- `range(scanned_height + 1, tip + 1)` with the block of each height
unfoldable pub new_blocks : (ℕ → List Transaction) → ℤ → ℕ → List (ℕ × List Transaction)
unfolding blocks_from next_height
new_blocks block_at scanned tip =
    blocks_from block_at (next_height scanned) (tip + 1 - next_height scanned)

-- The reconciled rounds are the pending ones: they stand where those stood.
unfoldable pub write_back : List RoundEvent → List RoundEvent → List RoundEvent
unfolding is_started
write_back [] ps = []
write_back (e ∷ es) [] = e ∷ es
write_back (e ∷ es) (p ∷ ps) =
    if is_started e then p ∷ write_back es ps else e ∷ write_back es (p ∷ ps)

-- The tip that was scanned, or the error that ended the scan.
abbrev scanned_to : ℕ → Result RoundError (Unit {0}) → Result RoundError ℤ
scanned_to tip (ok _) = ok (pos tip)
scanned_to tip (err e) = err e

-- `confirm_rounds_in_blocks`: what it returns, and the events as it leaves them.
unfoldable pub confirm_rounds_in_blocks :
    List RoundEvent → (ℕ → List Transaction) → ℕ → ℤ → Result RoundError ℤ × List RoundEvent
unfolding new_blocks write_back is_started reconcile_round_event_destinations
confirm_rounds_in_blocks events block_at tip scanned =
    let (outcome, ps) =
      reconcile_round_event_destinations (keep is_started events)
        (new_blocks block_at scanned tip) in
    (scanned_to tip outcome, write_back events ps)

-- `count_confirmed_rounds`
unfoldable pub count_confirmed_rounds : List RoundEvent → ℕ
unfolding is_confirmed
count_confirmed_rounds = count_if is_confirmed

-- `event.get("execution_status", "started") == "started"`
is_execution_started : Option ExecutionStatus → Bool
is_execution_started none = true
is_execution_started (some ExecutionStatus.started) = true
is_execution_started (some _) = false

-- The writes of `mark_latest_started_round_failed` to the event that it finds.
unfoldable pub mark_failed : String → ℕ → RoundEvent → RoundEvent
unfolding is_execution_started
mark_failed reason stop_block e = record e {
  status = Status.failed;
  execution_status =
      if is_execution_started e.execution_status
      then some ExecutionStatus.failed
      else e.execution_status;
  failure_reason = some reason;
  stop_block = some stop_block;
}

unfoldable pub is_pending_of : String → RoundEvent → Bool
unfolding is_started
is_pending_of taker e = is_started e && str_eq e.taker taker

-- The first event of the taker that is pending is updated.
unfoldable pub mark_first : String → String → ℕ → List RoundEvent → List RoundEvent
unfolding is_pending_of mark_failed
mark_first taker reason stop_block [] = []
mark_first taker reason stop_block (e ∷ es) =
    if is_pending_of taker e
    then mark_failed reason stop_block e ∷ es
    else e ∷ mark_first taker reason stop_block es

-- `mark_latest_started_round_failed`, which walks the events in reverse.
unfoldable pub mark_latest_started_round_failed :
    List RoundEvent → String → String → ℕ → List RoundEvent
unfolding mark_first
mark_latest_started_round_failed events taker reason stop_block =
    reverse (mark_first taker reason stop_block (reverse events))

-- What the JoinMarket engine (manager/engine/joinmarket_engine.py) keeps of its rounds: the height that
-- it has scanned, the round counter, and the events of all clients.
pub record EngineRounds : Type 0 where
  pub round_scan_height : ℤ
  pub current_round : ℕ
  pub live_round_events : List RoundEvent

-- The engine after a scan: an error leaves the height and the counter.
unfoldable pub after_scan :
    EngineRounds → Result RoundError ℤ × List RoundEvent → Result RoundError ℕ × EngineRounds
unfolding count_confirmed_rounds
after_scan s (ok height, events) = (
  ok (count_confirmed_rounds events),
  record {
    round_scan_height = height;
    current_round = count_confirmed_rounds events;
    live_round_events = events;
  },
)
after_scan s (err e, events) = (err e, record s { live_round_events = events })

-- `confirm_started_rounds`, with the node there.
unfoldable pub confirm_started_rounds :
    (ℕ → List Transaction) → ℕ → EngineRounds → Result RoundError ℕ × EngineRounds
unfolding after_scan confirm_rounds_in_blocks
confirm_started_rounds block_at tip s =
    after_scan s (confirm_rounds_in_blocks s.live_round_events block_at tip s.round_scan_height)
