-- ===== src/Rounds/Export/Labels.antt =====
-- The labels of an export: their ids, and what becomes of the events that were collected.
use coinjoin_emulator.Base.{
  ℕ, ◌+◌, ◌≡◌, refl, ◌∙◌, ap, Bool, true, false, String, Option, none, some, List, [], ◌∷◌, ◌++◌,
  map, arith, All, Result, ok, err, ◌<◌,
}
use coinjoin_emulator.Base.Sort.{IsSorted, sort_by-eq_self}
use coinjoin_emulator.Rounds.{
  RoundEvent, destination_address, DestinationMatch, copy_with_export_round_id,
  preserve_execution_status, mark_duplicate_destination, add_destination_match,
}
use coinjoin_emulator.Rounds.Reconcile.{
  Block, Transaction, RoundError, Groups, scan_blocks, scan_transactions, and_then, group_from,
  mark_shared, reconcile_round_event_destinations,
}
use coinjoin_emulator.Rounds.Marks.{is_shared}
use coinjoin_emulator.Rounds.Refs.{destinations}
use coinjoin_emulator.Rounds.Agreement.{
  AllTxids, settle, settled, add_all, found, reconcile-settles,
}
use coinjoin_emulator.Rounds.Export.{
  number_from, concat, collect_round_events, scan_exported, scan_height, reconcile_exported,
  add_key, keyed, label_before, sorted_labels, after_reconcile, match_round_events_to_blocks,
}

-- Blocks that have heights, as the generator yields them.
abbrev pub with_heights : List (ℕ × List Transaction) → List Block
with_heights [] = []
with_heights ((h, ts) ∷ bs) = record { height = some h; transactions = ts } ∷ with_heights bs

and_then-same :
    {next other : List RoundEvent → Result RoundError (Unit {0}) × List RoundEvent}
    (r : Result RoundError (Unit {0}) × List RoundEvent)
    → ((es : List RoundEvent) → next es ≡ other es)
    → and_then r next ≡ and_then r other
unfolding and_then
and_then-same (ok x, es) h = h es
and_then-same (err x, es) h = refl

scan_exported-eq :
    (g : Groups) (bs : List (ℕ × List Transaction)) (es : List RoundEvent)
    → scan_exported g (with_heights bs) es ≡ scan_blocks g bs es
unfolding scan_exported scan_height scan_blocks and_then
scan_exported-eq g [] es = refl
scan_exported-eq g ((h, ts) ∷ bs) es =
    and_then-same (scan_transactions g h ts es) (scan_exported-eq g bs)

reconcile_exported-eq :
    (events : List RoundEvent) (blocks : List (ℕ × List Transaction))
    → reconcile_exported events (with_heights blocks)
      ≡ reconcile_round_event_destinations events blocks
unfolding reconcile_exported reconcile_round_event_destinations
reconcile_exported-eq events blocks =
    let kept = map preserve_execution_status events in
    let groups = group_from 0 kept [] in scan_exported-eq groups blocks (mark_shared groups kept)

export-add_all :
    (ms : List DestinationMatch) (e : RoundEvent)
    → (add_all ms e).export_round_id ≡ e.export_round_id
unfolding add_destination_match preserve_execution_status
export-add_all [] e = refl
export-add_all (m ∷ ms) e = export-add_all ms (add_destination_match m e)

export-settled :
    (shared : Bool) (ms : List DestinationMatch) (e : RoundEvent)
    → (settled shared ms e).export_round_id ≡ e.export_round_id
unfolding preserve_execution_status mark_duplicate_destination
export-settled true ms e =
    export-add_all ms (mark_duplicate_destination (preserve_execution_status e))
export-settled false ms e = export-add_all ms (preserve_execution_status e)

-- Events with their ids, from `i` on.
abbrev pairs_from : ℕ → List RoundEvent → List (ℕ × RoundEvent)
pairs_from i [] = []
pairs_from i (e ∷ es) = (i, e) ∷ pairs_from (i + 1) es

module _ (f : RoundEvent → RoundEvent)
    (keeps : (e : RoundEvent) → (f e).export_round_id ≡ e.export_round_id) where
  keyed-number_from :
      (i : ℕ) (es : List RoundEvent)
      → keyed (map f (number_from i es)) ≡ ok (pairs_from i (map f (number_from i es)))
  unfolding keyed number_from copy_with_export_round_id
  keyed-number_from i [] = refl
  keyed-number_from i (e ∷ es) =
      let c = copy_with_export_round_id i e in
      ap (λ o. add_key (f c) o (keyed (map f (number_from (i + 1) es)))) (keeps c)
      ∙ ap (add_key (f c) (some i)) (keyed-number_from (i + 1) es)

-- The events of all clients, one client after the other.
abbrev pub all_events : List (List RoundEvent) → List RoundEvent
all_events [] = []
all_events (es ∷ ess) = es ++ all_events ess

-- An event with no export id.
abbrev pub without_id : RoundEvent → RoundEvent
without_id e = record e { export_round_id = none }

-- Consecutive ids, as many as there are events.
abbrev pub ids_from : ℕ → List RoundEvent → List (Option ℕ)
ids_from i [] = []
ids_from i (e ∷ es) = some i ∷ ids_from (i + 1) es

concat-all_events : (groups : List (List RoundEvent)) → concat groups ≡ all_events groups
concat-all_events [] = refl
concat-all_events (es ∷ ess) = ap (λ l. es ++ l) (concat-all_events ess)

without-number_from :
    (i : ℕ) (es : List RoundEvent) → map without_id (number_from i es) ≡ map without_id es
unfolding number_from copy_with_export_round_id
without-number_from i [] = refl
without-number_from i (e ∷ es) = ap (λ l. without_id e ∷ l) (without-number_from (i + 1) es)

ids-number_from :
    (i : ℕ) (es : List RoundEvent) → map (λ e. e.export_round_id) (number_from i es) ≡ ids_from i es
unfolding number_from copy_with_export_round_id
ids-number_from i [] = refl
ids-number_from i (e ∷ es) = ap (λ l. some i ∷ l) (ids-number_from (i + 1) es)

module _ (name_le : String → String → Bool) where
  above-pairs_from :
      (x : ℕ × RoundEvent) (i : ℕ) (es : List RoundEvent)
      → x.0 < i
      → All (λ y. label_before name_le x y ≡ true) (pairs_from i es)
  unfolding label_before
  above-pairs_from x i [] h = tt
  above-pairs_from x i (e ∷ es) h =
      (ground (arith, h), above-pairs_from x (i + 1) es (omega (arith, h)))

  IsSorted-pairs_from :
      (i : ℕ) (es : List RoundEvent) → IsSorted (label_before name_le) (pairs_from i es)
  IsSorted-pairs_from i [] = tt
  IsSorted-pairs_from i (e ∷ es) =
      (above-pairs_from (i, e) (i + 1) es (omega arith), IsSorted-pairs_from (i + 1) es)

  events-pairs_from : (i : ℕ) (es : List RoundEvent) → map (λ k. k.1) (pairs_from i es) ≡ es
  events-pairs_from i [] = refl
  events-pairs_from i (e ∷ es) = ap (λ l. e ∷ l) (events-pairs_from (i + 1) es)

  sorted_labels-pairs_from :
      (i : ℕ) (es : List RoundEvent) → sorted_labels name_le (ok (pairs_from i es)) ≡ ok es
  unfolding sorted_labels
  sorted_labels-pairs_from i es =
      ap (λ l. ok (map (λ k. k.1) l))
        (sort_by-eq_self (label_before name_le) (pairs_from i es) (IsSorted-pairs_from i es))
      ∙ ap ok (events-pairs_from i es)

  matched-collected :
      (groups : List (List RoundEvent)) (blocks : List (ℕ × List Transaction))
      → AllTxids blocks
      → match_round_events_to_blocks name_le (collect_round_events groups) (with_heights blocks)
        ≡ ok (map (settle (collect_round_events groups) blocks) (collect_round_events groups))
  unfolding match_round_events_to_blocks collect_round_events after_reconcile
  matched-collected groups blocks h =
      let events = number_from 1 (concat groups) in
      let f = settle events blocks in
      ap (after_reconcile name_le)
        (reconcile_exported-eq events blocks ∙ reconcile-settles events blocks h)
      ∙ ap (sorted_labels name_le) (
          keyed-number_from f
            (λ e.
              export-settled (is_shared (destinations events) (destination_address e))
                (found (destination_address e) blocks) e)
            1 (concat groups))
      ∙ sorted_labels-pairs_from 1 (map f events)

  -- If the blocks have heights and their transactions ids, the export succeeds: it holds the events of
  -- all clients in their order, with ids from 1 on, each settled by its destination and the blocks.
  pub match_round_events_to_blocks-eq :
      (groups : List (List RoundEvent)) (blocks : List (ℕ × List Transaction))
      → AllTxids blocks
      → (events : List RoundEvent) × (match_round_events_to_blocks name_le
            (collect_round_events groups)
            (with_heights blocks)
          ≡ ok (map (settle events blocks) events))
        × (map without_id events ≡ map without_id (all_events groups))
        × (map (λ e. e.export_round_id) events ≡ ids_from 1 (all_events groups))
  unfolding collect_round_events
  match_round_events_to_blocks-eq groups blocks h = (
    number_from 1 (concat groups),
    matched-collected groups blocks h,
    without-number_from 1 (concat groups) ∙ ap (map without_id) (concat-all_events groups),
    ids-number_from 1 (concat groups) ∙ ap (ids_from 1) (concat-all_events groups),
  )
