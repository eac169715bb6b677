-- ===== src/Rounds/Examples.antt =====
-- Round events at concrete blocks: a confirmed round, two rounds that share a destination, and a
-- round that two transactions pay.
use coinjoin_emulator.Base.{
  Bool, ℕ, zero, suc, ◌≡◌, ◌↔◌, refl, inl, true, false, String, none, some, List, [], ◌∷◌, map, ok,
  keep,
}
use coinjoin_emulator.Base.Int.{pos, negsuc}
use coinjoin_emulator.Rounds.{
  Status, ExecutionStatus, RoundEvent, DestinationMatch, confirmed_destination_txid,
}
use coinjoin_emulator.Rounds.Reconcile.{Transaction, txid, reconcile_round_event_destinations}
use coinjoin_emulator.Rounds.Export.{match_round_events_to_blocks, collect_round_events}
use coinjoin_emulator.Rounds.Export.Labels.{
  with_heights, all_events, without_id, ids_from, match_round_events_to_blocks-eq,
}
use coinjoin_emulator.Rounds.Agreement.{settle, settled, reconcile-settles}
use coinjoin_emulator.Rounds.Verdict.{IsPending}
use coinjoin_emulator.Rounds.Verdict.Sole.{confirmed_destination_txid-settled}
use coinjoin_emulator.Rounds.Confirm.{is_started, confirm_rounds_in_blocks}
use coinjoin_emulator.Rounds.Confirm.Counting.{on_started, confirm_rounds_in_blocks-eq}

abbrev pub event : ℕ → String → RoundEvent
event n destination = record {
  round_id = n;
  taker = "jcs-000";
  status = Status.started;
  execution_status = some ExecutionStatus.requested;
  destination = some destination;
  amount_sats = none;
  counterparties = none;
  mixdepth = none;
  start_block = 5;
  start_chain_height = none;
  destination_matches = [];
  match_source = none;
  failure_reason = none;
  stop_block = none;
  export_round_id = none;
}

abbrev events : List RoundEvent
events = event 1 "x" ∷ event 2 "y" ∷ event 3 "y" ∷ event 4 "z" ∷ []

abbrev paying : String → String → Transaction
paying id to = record {
  raw_txid = some id;
  outputs = record { raw_address = none } ∷ record { raw_address = some to } ∷ [];
}

abbrev block_at : ℕ → List Transaction
block_at zero = paying "t1" "x" ∷ paying "t2" "y" ∷ []
block_at (suc n) = paying "t3" "z" ∷ paying "t4" "z" ∷ []

abbrev blocks : List (ℕ × List Transaction)
blocks = (0, block_at 0) ∷ (1, block_at 1) ∷ []

abbrev statuses : List RoundEvent → List Status
statuses = map (λ e. e.status)

statuses_run :
    statuses (reconcile_round_event_destinations events blocks).1
    ≡ Status.confirmed ∷ Status.duplicate_destination ∷ Status.duplicate_destination
      ∷ Status.multiple_matches ∷ []
unfolding reconcile_round_event_destinations
statuses_run = refl

reconcile-settles_example :
    reconcile_round_event_destinations events blocks ≡ (ok tt, map (settle events blocks) events)
unfolding txid
reconcile-settles_example =
    reconcile-settles events blocks ((refl, (refl, tt)), ((refl, (refl, tt)), tt))

event-IsPending : IsPending (event 1 "x")
event-IsPending = record { no_matches = refl; attempt = inl refl }

abbrev found_match : DestinationMatch
found_match = record { txid = "t1"; block_height = 0 }

confirmed_destination_txid-settled_example :
    (confirmed_destination_txid (settled false (found_match ∷ []) (event 1 "x")) ≡ some "t1")
    ↔ ((false ≡ false) × ((found_match.txid ≡ "t1") × Unit {0}))
confirmed_destination_txid-settled_example =
    confirmed_destination_txid-settled false (found_match ∷ []) (event 1 "x") "t1" event-IsPending

confirm_rounds_in_blocks-eq_example : confirm_rounds_in_blocks events block_at 1 (negsuc 0) ≡ (
  ok (pos 1),
  map
      (on_started (settle (keep is_started events) ((0, block_at 0) ∷ (1, block_at 1) ∷ [])))
      events,
)
unfolding txid
confirm_rounds_in_blocks-eq_example =
    confirm_rounds_in_blocks-eq events block_at 1 (negsuc 0)
      ((refl, (refl, tt)), ((refl, (refl, tt)), tt))

abbrev any_order : String → String → Bool
any_order a b = true

match_round_events_to_blocks-eq_example :
    (labels : List RoundEvent) × (match_round_events_to_blocks any_order
        (collect_round_events (events ∷ []))
        (with_heights blocks)
      ≡ ok (map (settle labels blocks) labels))
    × (map without_id labels ≡ map without_id (all_events (events ∷ [])))
    × (map (λ e. e.export_round_id) labels ≡ ids_from 1 (all_events (events ∷ [])))
unfolding txid
match_round_events_to_blocks-eq_example =
    match_round_events_to_blocks-eq any_order (events ∷ []) blocks
      ((refl, (refl, tt)), ((refl, (refl, tt)), tt))
