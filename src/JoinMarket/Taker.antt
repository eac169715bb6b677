-- ===== src/JoinMarket/Taker.antt =====
-- `TakerClient`: at most one attempt at a time, which ends when its destination is mined or when it
-- is timed out. The address of an attempt is passed to the start; in Python it is also written into
-- the offer, where the next attempt with that offer overwrites it.
pub mod Attempts
pub mod Pending
pub mod Starts
use coinjoin_emulator.Base.{
  ℕ, ◌+◌, Bool, true, false, not, ◌&&◌, String, Option, none, some, List, [], ◌∷◌, ◌++◌, ltb,
  length, if◌then◌else◌, any, Result, ok, err,
}
use coinjoin_emulator.Base.Int.{ℤ, pos, negsuc}
use coinjoin_emulator.Rounds.{Status, ExecutionStatus, RoundEvent}
use coinjoin_emulator.Rounds.Confirm.{is_started, count_confirmed_rounds}
use coinjoin_emulator.Schedule.{Pacing, is_paused}
use coinjoin_emulator.JoinMarket.{Offer, ClientError, get_offer, or_false}

pub record Taker : Type 0 where
  pub name : String
  pub offers : List Offer
  pub pacing : Pacing
  pub time_between_rounds : ℕ
  pub coinjoin_timeout_blocks : ℕ
  pub coinjoin_in_process : Bool
  pub coinjoin_start : ℕ
  pub round_events : List RoundEvent

-- jmwalletd during one update: whether a coinjoin is in process, if the session is answered; a new
-- address, if one is given; and whether the start is acknowledged. A stop that fails is caught.
pub record Answers : Type 0 where
  pub session : Option Bool
  pub address : Option String
  pub acknowledged : Bool

-- `has_unconfirmed_round`
unfoldable pub has_unconfirmed_round : Taker → Bool
unfolding is_started
has_unconfirmed_round t = any is_started t.round_events

-- `coinjoin_timed_out`
unfoldable pub coinjoin_timed_out : Taker → ℕ → Bool
coinjoin_timed_out t block = ltb (t.coinjoin_start + t.coinjoin_timeout_blocks) block

-- `_apply_coinjoin_process_status`
unfoldable pub apply_process_status : Bool → Taker → Taker
apply_process_status b t = record t { coinjoin_in_process = b }

-- `_refresh_completed_coinjoins`, which counts the attempts that were mined.
unfoldable pub refresh_completed_coinjoins : Taker → Taker
unfolding count_confirmed_rounds
refresh_completed_coinjoins t =
    let confirmed = count_confirmed_rounds t.round_events in
    if ltb t.pacing.completed_coinjoins confirmed
    then record t { pacing = record t.pacing { completed_coinjoins = confirmed } }
    else t

-- `record_round_start`
unfoldable pub record_round_start : Taker → String → Offer → ℕ → RoundEvent
record_round_start t destination offer block = record {
  round_id = length t.round_events + 1;
  taker = t.name;
  status = Status.started;
  execution_status = some ExecutionStatus.requested;
  destination = some destination;
  amount_sats = offer.offer_amount;
  counterparties = offer.offer_counterparties;
  mixdepth = offer.offer_mixdepth;
  start_block = block;
  start_chain_height = none;
  destination_matches = [];
  match_source = none;
  failure_reason = none;
  stop_block = none;
  export_round_id = none;
}

-- `record_round_start_outcome`
unfoldable pub record_round_start_outcome : Bool → RoundEvent → RoundEvent
record_round_start_outcome true e = record e { execution_status = some ExecutionStatus.started }
record_round_start_outcome false e = record e { execution_status = some ExecutionStatus.unknown }

-- The attempt is recorded before its start is requested, and kept whatever becomes of the start.
unfoldable pub started_attempt : Bool → String → Offer → ℕ → Taker → Result ClientError ℤ × Taker
unfolding record_round_start record_round_start_outcome
started_attempt acknowledged destination offer block t =
    let event =
      record_round_start_outcome acknowledged (record_round_start t destination offer block) in
    let recorded = record t {
      coinjoin_start = block;
      round_events = t.round_events ++ event ∷ [];
    } in
    if acknowledged
    then (ok (pos 1), record recorded { coinjoin_in_process = true })
    else (err ClientError.start_failed, recorded)

-- The attempt with the address that is given, if one is.
unfoldable pub start_at : Option String → Bool → Offer → ℕ → Taker → Result ClientError ℤ × Taker
unfolding started_attempt
start_at none acknowledged offer block t = (err ClientError.no_address, t)
start_at (some destination) acknowledged offer block t =
    started_attempt acknowledged destination offer block t

-- `_prepare_attempt`, then the attempt: an offer first, then an address for it.
unfoldable pub start_attempt : Option Offer → Answers → ℕ → Taker → Result ClientError ℤ × Taker
unfolding start_at
start_attempt none a block t = (err ClientError.no_offer, t)
start_attempt (some offer) a block t = start_at a.address a.acknowledged offer block t

-- The branch of an attempt that has run too long.
unfoldable pub stop_timed_out : ℕ → Taker → Taker
stop_timed_out block t = record t {
  coinjoin_in_process = false;
  pacing = record t.pacing { next_coinjoin_allowed = block + t.time_between_rounds };
}

-- `_unconfirmed_finished_attempt_result`
unfoldable pub finished_attempt_result : ℕ → Taker → ℤ
unfolding coinjoin_timed_out
finished_attempt_result block t = if coinjoin_timed_out t block then negsuc 0 else pos 0

-- `update` after the session was answered.
unfoldable pub proceed : Answers → ℕ → ℕ → Taker → Result ClientError ℤ × Taker
unfolding has_unconfirmed_round finished_attempt_result start_attempt stop_timed_out get_offer
    is_paused
proceed a block round t =
    if has_unconfirmed_round t && not t.coinjoin_in_process
    then (ok (finished_attempt_result block t), t)
    else if not t.coinjoin_in_process
        && (not (is_paused t.pacing block round) && not (has_unconfirmed_round t))
    then start_attempt (get_offer t.offers round) a block t
    else if t.coinjoin_in_process && coinjoin_timed_out t block
    then (ok (negsuc 0), stop_timed_out block t)
    else (ok (pos 0), t)

-- `update_async` after the session was answered.
unfoldable pub proceed_async : Answers → ℕ → ℕ → Taker → Result ClientError ℤ × Taker
unfolding has_unconfirmed_round finished_attempt_result start_attempt stop_timed_out get_offer
    is_paused
proceed_async a block round t =
    if has_unconfirmed_round t && not t.coinjoin_in_process
    then (ok (finished_attempt_result block t), t)
    else if is_paused t.pacing block round
    then (ok (pos 0), t)
    else if not t.coinjoin_in_process && not (has_unconfirmed_round t)
    then start_attempt (get_offer t.offers round) a block t
    else if t.coinjoin_in_process && coinjoin_timed_out t block
    then (ok (negsuc 0), stop_timed_out block t)
    else (ok (pos 0), t)

-- The flag from the session, and the completed attempts, before either of them goes on.
unfoldable pub refreshed : Bool → Taker → Taker
unfolding refresh_completed_coinjoins apply_process_status
refreshed b t = refresh_completed_coinjoins (apply_process_status b t)

-- Goes on with the taker refreshed, if the session was answered.
unfoldable pub if_answered :
    (Taker → Result ClientError ℤ × Taker) → Option Bool → Taker → Result ClientError ℤ × Taker
unfolding refreshed
if_answered next none t = (err ClientError.no_session, t)
if_answered next (some b) t = next (refreshed b t)

-- `update`: what it returns or raises, and the taker as it leaves it.
unfoldable pub update : Answers → ℕ → ℕ → Taker → Result ClientError ℤ × Taker
unfolding proceed if_answered
update a block round t = if_answered (proceed a block round) a.session t

-- `update_async`: without an answer the session's entries have their defaults.
unfoldable pub update_async : Answers → ℕ → ℕ → Taker → Result ClientError ℤ × Taker
unfolding proceed_async refreshed
update_async a block round t = proceed_async a block round (refreshed (or_false a.session) t)
