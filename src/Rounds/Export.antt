-- ===== src/Rounds/Export.antt =====
-- events.py: the export of the round events, and the evidence that goes with it. The order of texts,
-- by which ties of export ids are broken, is a parameter.
pub mod Labels
pub mod Evidence
use coinjoin_emulator.Base.{
  ℕ, ◌+◌, Bool, true, false, not, ◌&&◌, ◌||◌, String, Option, none, some, List, [], ◌∷◌, ◌++◌, map,
  ltb, ◌==◌, str_eq, if◌then◌else◌, any, keep, length, Result, ok, err,
}
use coinjoin_emulator.Base.Sort.{sort_by}
use coinjoin_emulator.Rounds.{
  Status, RoundEvent, copy_with_export_round_id, preserve_execution_status, destination_address,
  is_status, confirmed_destination_txid,
}
use coinjoin_emulator.Rounds.Reconcile.{
  Block, RoundError, Groups, scan_transactions, and_then, group_from, mark_shared,
}

-- Copies with export ids from `i` on.
unfoldable pub number_from : ℕ → List RoundEvent → List RoundEvent
unfolding copy_with_export_round_id
number_from i [] = []
number_from i (e ∷ es) = copy_with_export_round_id i e ∷ number_from (i + 1) es

abbrev pub concat : List (List RoundEvent) → List RoundEvent
concat [] = []
concat (es ∷ ess) = es ++ concat ess

-- `collect_round_events`
unfoldable pub collect_round_events : List (List RoundEvent) → List RoundEvent
unfolding number_from
collect_round_events groups = number_from 1 (concat groups)

-- One exported block; the generator raises at one without a height.
scan_height :
    Groups → Option ℕ → Block → List RoundEvent → Result RoundError (Unit {0}) × List RoundEvent
unfolding scan_transactions
scan_height g none b es = (err RoundError.missing_height, es)
scan_height g (some h) b es = scan_transactions g h b.transactions es

-- The scan of the exported blocks.
unfoldable pub scan_exported :
    Groups → List Block → List RoundEvent → Result RoundError (Unit {0}) × List RoundEvent
unfolding scan_height and_then
scan_exported g [] es = (ok tt, es)
scan_exported g (b ∷ bs) es = and_then (scan_height g b.height b es) (scan_exported g bs)

-- `reconcile_round_event_destinations` over the generator.
unfoldable pub reconcile_exported :
    List RoundEvent → List Block → Result RoundError (Unit {0}) × List RoundEvent
unfolding scan_exported group_from mark_shared preserve_execution_status
reconcile_exported events blocks =
    let kept = map preserve_execution_status events in
    let groups = group_from 0 kept [] in scan_exported groups blocks (mark_shared groups kept)

abbrev add_key :
    RoundEvent
    → Option ℕ
    → Result RoundError (List (ℕ × RoundEvent))
    → Result RoundError (List (ℕ × RoundEvent))
add_key e none r = err RoundError.missing_export_id
add_key e (some i) (ok ks) = ok ((i, e) ∷ ks)
add_key e (some i) (err x) = err x

-- The events with their mandatory export ids.
unfoldable pub keyed : List RoundEvent → Result RoundError (List (ℕ × RoundEvent))
keyed [] = ok []
keyed (e ∷ es) = add_key e e.export_round_id (keyed es)

module _ (name_le : String → String → Bool) where
  -- The order of `(export_round_id, taker)`.
  unfoldable pub label_before : ℕ × RoundEvent → ℕ × RoundEvent → Bool
  label_before a b = ltb a.0 b.0 || (a.0 == b.0 && name_le a.1.taker b.1.taker)

  sorted_labels : Result RoundError (List (ℕ × RoundEvent)) → Result RoundError (List RoundEvent)
  unfolding label_before
  sorted_labels (ok ks) = ok (map (λ k. k.1) (sort_by label_before ks))
  sorted_labels (err x) = err x

  after_reconcile :
      Result RoundError (Unit {0}) × List RoundEvent → Result RoundError (List RoundEvent)
  unfolding sorted_labels keyed
  after_reconcile (ok _, es) = sorted_labels (keyed es)
  after_reconcile (err x, es) = err x

  -- `match_round_events_to_blocks`
  unfoldable pub match_round_events_to_blocks :
      List RoundEvent → List Block → Result RoundError (List RoundEvent)
  unfolding after_reconcile reconcile_exported
  match_round_events_to_blocks events blocks = after_reconcile (reconcile_exported events blocks)

-- The reasons why the labels are incomplete, with the rounds or the takers that they name.
pub data IncompleteReason : Type 0 where
  unlabelled_takers : List String → IncompleteReason
  no_destination shared_destination several_transactions : List ℕ → IncompleteReason

-- `ProducerLabelEvidence`: whether the labels are complete, why not, and the transactions attributed.
pub record LabelEvidence : Type 0 where
  pub complete : Bool
  pub reasons : List IncompleteReason
  pub positive_count : ℕ

unfoldable pub is_none : {A : Type 0} → Option A → Bool
is_none none = true
is_none (some a) = false

-- A reason stands if its list is not empty.
unfoldable pub reason_if :
    {A : Type 0} → (List A → IncompleteReason) → List A → List IncompleteReason
reason_if why [] = []
reason_if why (x ∷ xs) = why (x ∷ xs) ∷ []

abbrev round_ids : List RoundEvent → List ℕ
round_ids = map (λ e. e.round_id)

-- Adds a transaction to the set of those attributed.
unfoldable pub add_txid : Option String → List String → List String
add_txid none ts = ts
add_txid (some t) ts = if any (λ u. str_eq u t) ts then ts else t ∷ ts

unfoldable pub positive_txids : List RoundEvent → List String
unfolding add_txid confirmed_destination_txid
positive_txids [] = []
positive_txids (e ∷ es) = add_txid (confirmed_destination_txid e) (positive_txids es)

unfoldable pub incomplete_reasons : List RoundEvent → List String → List IncompleteReason
unfolding reason_if is_none is_status destination_address
incomplete_reasons labels takers =
    reason_if unlabelled_takers takers
    ++ reason_if no_destination (round_ids (keep (λ e. is_none (destination_address e)) labels))
    ++ reason_if shared_destination
        (round_ids (keep (λ e. is_status e.status Status.duplicate_destination) labels))
    ++ reason_if several_transactions
        (round_ids (keep (λ e. is_status e.status Status.multiple_matches) labels))

no_reasons : List IncompleteReason → Bool
no_reasons [] = true
no_reasons (_ ∷ _) = false

-- `producer_label_evidence`
unfoldable pub producer_label_evidence : List RoundEvent → List String → LabelEvidence
unfolding incomplete_reasons positive_txids no_reasons
producer_label_evidence labels takers =
    let why = incomplete_reasons labels takers in
    record {
      complete = no_reasons why;
      reasons = why;
      positive_count = length (positive_txids labels);
    }
