-- ===== src/Rounds/Reconcile.antt =====
-- events.py: `collect_round_events`, `reconcile_round_event_destinations` and
-- `match_round_events_to_blocks`, over blocks as exported_block_record.py and its siblings read them.
use coinjoin_emulator.Base.{
  ℕ, ◌+◌, String, Option, none, some, List, [], ◌∷◌, ◌++◌, map, str_eq, ltb, if◌then◌else◌, modify,
  length, Result, ok, err,
}
use coinjoin_emulator.Rounds.{
  RoundEvent, DestinationMatch, non_empty, destination_address, preserve_execution_status,
  mark_duplicate_destination, add_destination_match,
}

-- A transaction output: the address of its scriptPubKey, if one was exported.
pub record TransactionOutput : Type 0 where
  pub raw_address : Option String

-- A transaction with its outputs.
pub record Transaction : Type 0 where
  pub raw_txid : Option String
  pub outputs : List TransactionOutput

-- A block with its height, if one was exported, and its transactions.
pub record Block : Type 0 where
  pub height : Option ℕ
  pub transactions : List Transaction

-- `TransactionOutputRecord.address` and `ScriptPubKeyRecord.address`
unfoldable pub address : TransactionOutput → Option String
unfolding non_empty
address o = non_empty o.raw_address

-- `ExportedTransactionRecord.txid`
unfoldable pub txid : Transaction → Option String
unfolding non_empty
txid t = non_empty t.raw_txid

-- The two `ValueError`s of the reconciliation, and that of an event with no export id.
pub data RoundError : Type 0 where
  missing_txid missing_height missing_export_id : RoundError

-- The index by destination: each address with the places of its events, in insertion order.
abbrev pub Groups : Type 0
Groups = List (String × List ℕ)

-- `events_by_destination.setdefault(key, []).append(event)`
unfoldable pub push : String → ℕ → Groups → Groups
push k i [] = (k, i ∷ []) ∷ []
push k i ((j, is) ∷ g) = if str_eq j k then (j, is ++ i ∷ []) ∷ g else (j, is) ∷ push k i g

-- `events_by_destination.get(address, [])`
unfoldable pub members : String → Groups → List ℕ
members k [] = []
members k ((j, is) ∷ g) = if str_eq j k then is else members k g

-- Adds one event to the index, if it has a destination.
unfoldable pub index_one : Option String → ℕ → Groups → Groups
unfolding push
index_one none i g = g
index_one (some k) i g = push k i g

-- The first loop's index, from the event at place `i` on.
unfoldable pub group_from : ℕ → List RoundEvent → Groups → Groups
unfolding index_one destination_address
group_from i [] g = g
group_from i (e ∷ es) g = group_from (i + 1) es (index_one (destination_address e) i g)

-- Applies an update to each event that is referred to.
unfoldable pub modify_all : List ℕ → (RoundEvent → RoundEvent) → List RoundEvent → List RoundEvent
modify_all [] f es = es
modify_all (i ∷ is) f es = modify_all is f (modify i f es)

-- The second loop: every event of a shared destination is marked.
unfoldable pub mark_shared : Groups → List RoundEvent → List RoundEvent
unfolding modify_all mark_duplicate_destination
mark_shared [] es = es
mark_shared ((k, is) ∷ g) es =
    mark_shared g (if ltb 1 (length is) then modify_all is mark_duplicate_destination es else es)

unfoldable pub record_output :
    Groups → DestinationMatch → Option String → List RoundEvent → List RoundEvent
unfolding modify_all members add_destination_match
record_output g m none es = es
record_output g m (some a) es = modify_all (members a g) (add_destination_match m) es

unfoldable pub scan_outputs :
    Groups → DestinationMatch → List TransactionOutput → List RoundEvent → List RoundEvent
unfolding record_output address
scan_outputs g m [] es = es
scan_outputs g m (o ∷ os) es = scan_outputs g m os (record_output g m (address o) es)

-- One transaction; the events come back beside the error too.
unfoldable pub scan_transaction :
    Groups
    → ℕ
    → Option String
    → List TransactionOutput
    → List RoundEvent
    → Result RoundError (Unit {0}) × List RoundEvent
unfolding scan_outputs
scan_transaction g height none os es = (err missing_txid, es)
scan_transaction g height (some id) os es =
    (ok tt, scan_outputs g (record { txid = id; block_height = height }) os es)

-- Goes on with the events that an error-free step left.
unfoldable pub and_then :
    Result RoundError (Unit {0}) × List RoundEvent
    → (List RoundEvent → Result RoundError (Unit {0}) × List RoundEvent)
    → Result RoundError (Unit {0}) × List RoundEvent
and_then (ok _, es) f = f es
and_then (err e, es) f = (err e, es)

unfoldable pub scan_transactions :
    Groups → ℕ → List Transaction → List RoundEvent → Result RoundError (Unit {0}) × List RoundEvent
unfolding scan_transaction and_then txid
scan_transactions g height [] es = (ok tt, es)
scan_transactions g height (t ∷ ts) es =
    and_then (scan_transaction g height (txid t) t.outputs es) (scan_transactions g height ts)

-- The third loop, over blocks with their heights.
unfoldable pub scan_blocks :
    Groups
    → List (ℕ × List Transaction)
    → List RoundEvent
    → Result RoundError (Unit {0}) × List RoundEvent
unfolding scan_transactions
scan_blocks g [] es = (ok tt, es)
scan_blocks g ((height, ts) ∷ bs) es =
    and_then (scan_transactions g height ts es) (scan_blocks g bs)

-- `reconcile_round_event_destinations`: its outcome, and the events as it leaves them.
unfoldable pub reconcile_round_event_destinations :
    List RoundEvent → List (ℕ × List Transaction) → Result RoundError (Unit {0}) × List RoundEvent
unfolding group_from mark_shared scan_blocks preserve_execution_status
reconcile_round_event_destinations events blocks =
    let kept = map preserve_execution_status events in
    let groups = group_from 0 kept [] in scan_blocks groups blocks (mark_shared groups kept)
