-- ===== src/Rounds/Agreement.antt =====
-- The reconciliation, which updates a shared store through an index, against a description of what
-- becomes of one event on its own.
use mathlib.Core.Path.{ap₂}
use coinjoin_emulator.Base.{
  ℕ, ◌≡◌, refl, ◌∙◌, ap, sym, Bool, true, false, String, Option, none, some, List, [], ◌∷◌, ◌++◌,
  map, if◌then◌else◌, Bool-cases, inl, inr, All, is_some, Result, ok,
}
use coinjoin_emulator.Rounds.{
  RoundEvent, DestinationMatch, destination_address, add_destination_match,
  preserve_execution_status,
}
use coinjoin_emulator.Rounds.Reconcile.{
  TransactionOutput, Transaction, address, txid, RoundError, Groups, members, group_from,
  record_output, scan_outputs, scan_transaction, and_then, scan_transactions, scan_blocks,
  modify_all, reconcile_round_event_destinations,
}
use coinjoin_emulator.Rounds.Refs.{is_at, places, destinations, at_address, modify_all-places}
use coinjoin_emulator.Rounds.Groups.{grouped}
use coinjoin_emulator.Rounds.Marks.{is_shared, mark_if, mark_shared-eq, destination-mark}

-- Whether an output pays to the destination.
abbrev pub pays : Option String → Option String → Bool
pays none d = false
pays (some a) d = is_at a d

-- The matches for a destination: of a transaction's outputs, of transactions, and of blocks.
abbrev pub outputs_found :
    DestinationMatch → Option String → List TransactionOutput → List DestinationMatch
outputs_found m d [] = []
outputs_found m d (o ∷ os) = (if pays (address o) d then m ∷ [] else []) ++ outputs_found m d os

abbrev pub transaction_found :
    ℕ → Option String → Option String → List TransactionOutput → List DestinationMatch
transaction_found height d none os = []
transaction_found height d (some id) os =
    outputs_found (record { txid = id; block_height = height }) d os

abbrev pub transactions_found : ℕ → Option String → List Transaction → List DestinationMatch
transactions_found height d [] = []
transactions_found height d (t ∷ ts) =
    transaction_found height d (txid t) t.outputs ++ transactions_found height d ts

abbrev pub found : Option String → List (ℕ × List Transaction) → List DestinationMatch
found d [] = []
found d ((height, ts) ∷ bs) = transactions_found height d ts ++ found d bs

-- Matches recorded one after the other.
abbrev pub add_all : List DestinationMatch → RoundEvent → RoundEvent
add_all [] e = e
add_all (m ∷ ms) e = add_all ms (add_destination_match m e)

add_all-append :
    (ms ns : List DestinationMatch) (e : RoundEvent)
    → add_all (ms ++ ns) e ≡ add_all ns (add_all ms e)
add_all-append [] ns e = refl
add_all-append (m ∷ ms) ns e = add_all-append ms ns (add_destination_match m e)

destination-add :
    (m : DestinationMatch) (e : RoundEvent)
    → destination_address (add_destination_match m e) ≡ destination_address e
unfolding destination_address add_destination_match
destination-add m e = refl

destination-add_all :
    (ms : List DestinationMatch) (e : RoundEvent)
    → destination_address (add_all ms e) ≡ destination_address e
destination-add_all [] e = refl
destination-add_all (m ∷ ms) e =
    destination-add_all ms (add_destination_match m e) ∙ destination-add m e

-- The index refers to the events as they stand.
abbrev Refers : Groups → List RoundEvent → Type 0
Refers g es = (a : String) → members a g ≡ places a 0 (destinations es)

-- Every event gets the matches for its destination.
abbrev give : (Option String → List DestinationMatch) → List RoundEvent → List RoundEvent
give ms es = map (λ e. add_all (ms (destination_address e)) e) es

-- A step of the scan that succeeds and gives each event its matches.
abbrev Gives :
    Groups
    → (List RoundEvent → Result RoundError (Unit {0}) × List RoundEvent)
    → (Option String → List DestinationMatch)
    → Type 0
Gives g step ms = (es : List RoundEvent) → Refers g es → step es ≡ (ok tt, give ms es)

destinations-give :
    (ms : Option String → List DestinationMatch) (es : List RoundEvent)
    → destinations (give ms es) ≡ destinations es
destinations-give ms [] = refl
destinations-give ms (e ∷ es) =
    ap₂ (λ d ds. d ∷ ds) (destination-add_all (ms (destination_address e)) e)
      (destinations-give ms es)

give-give :
    (ms ns : Option String → List DestinationMatch) (es : List RoundEvent)
    → give ns (give ms es) ≡ give (λ d. ms d ++ ns d) es
give-give ms ns [] = refl
give-give ms ns (e ∷ es) =
    let d = destination_address e in
    ap₂ (λ x xs. x ∷ xs)
      (ap (λ k. add_all (ns k) (add_all (ms d) e)) (destination-add_all (ms d) e)
        ∙ sym (add_all-append (ms d) (ns d) e))
      (give-give ms ns es)

give-none : (es : List RoundEvent) → es ≡ give (λ d. []) es
give-none [] = refl
give-none (e ∷ es) = ap (λ l. e ∷ l) (give-none es)

-- Two such steps, one after the other.
Gives-and_then :
    (g : Groups) (step next : List RoundEvent → Result RoundError (Unit {0}) × List RoundEvent)
    (ms ns : Option String → List DestinationMatch)
    → Gives g step ms
    → Gives g next ns
    → Gives g (λ es. and_then (step es) next) (λ d. ms d ++ ns d)
unfolding and_then
Gives-and_then g step next ms ns p q es r = rw (p es r) (
    q (give ms es) (λ a. r a ∙ ap (places a 0) (sym (destinations-give ms es)))
    ∙ ap (λ l. (ok tt, l)) (give-give ms ns es))

record_output-give :
    (g : Groups) (m : DestinationMatch) (a : Option String)
    → Gives g (λ es. (ok tt, record_output g m a es)) (λ d. if pays a d then m ∷ [] else [])
unfolding record_output
record_output-give g m none es r = ap (λ l. (ok tt, l)) (give-none es)
record_output-give g m (some a) es r =
    ap (λ l. (ok tt, l))
      (ap (λ is. modify_all is (add_destination_match m) es) (r a)
        ∙ modify_all-places a (add_destination_match m) es
        ∙ at-give es)
  where
    at-give :
        (es : List RoundEvent)
        → map (at_address a (add_destination_match m)) es
          ≡ give (λ d. if is_at a d then m ∷ [] else []) es
    at-give [] = refl
    at-give (e ∷ es) =
        ap₂ (λ x xs. x ∷ xs)
          (elim (Bool-cases (is_at a (destination_address e))) [ inl p ↦ rw p | inr p ↦ rw p ])
          (at-give es)

scan_outputs-give :
    (g : Groups) (m : DestinationMatch) (os : List TransactionOutput)
    → Gives g (λ es. (ok tt, scan_outputs g m os es)) (λ d. outputs_found m d os)
unfolding scan_outputs and_then
scan_outputs-give g m [] = λ es r. ap (λ l. (ok tt, l)) (give-none es)
scan_outputs-give g m (o ∷ os) =
    Gives-and_then g (λ es. (ok tt, record_output g m (address o) es))
      (λ es. (ok tt, scan_outputs g m os es)) (λ d. if pays (address o) d then m ∷ [] else [])
      (λ d. outputs_found m d os) (record_output-give g m (address o)) (scan_outputs-give g m os)

-- Every transaction of the blocks has an id.
abbrev pub HasTxids : List Transaction → Type 0
HasTxids = All (λ t. is_some (txid t) ≡ true)

abbrev pub AllTxids : List (ℕ × List Transaction) → Type 0
AllTxids = All (λ b. HasTxids b.1)

scan_transaction-give :
    (g : Groups) (height : ℕ) (id : Option String) (os : List TransactionOutput)
    → is_some id ≡ true
    → Gives g (scan_transaction g height id os) (λ d. transaction_found height d id os)
unfolding scan_transaction
scan_transaction-give g height none os h es r = cc
scan_transaction-give g height (some id) os h es r =
    scan_outputs-give g (record { txid = id; block_height = height }) os es r

scan_transactions-give :
    (g : Groups) (height : ℕ) (ts : List Transaction)
    → HasTxids ts
    → Gives g (scan_transactions g height ts) (λ d. transactions_found height d ts)
unfolding scan_transactions
scan_transactions-give g height [] h = λ es r. ap (λ l. (ok tt, l)) (give-none es)
scan_transactions-give g height (t ∷ ts) h =
    Gives-and_then g (scan_transaction g height (txid t) t.outputs) (scan_transactions g height ts)
      (λ d. transaction_found height d (txid t) t.outputs) (λ d. transactions_found height d ts)
      (scan_transaction-give g height (txid t) t.outputs h.0)
      (scan_transactions-give g height ts h.1)

scan_blocks-give :
    (g : Groups) (bs : List (ℕ × List Transaction))
    → AllTxids bs
    → Gives g (scan_blocks g bs) (λ d. found d bs)
unfolding scan_blocks
scan_blocks-give g [] h = λ es r. ap (λ l. (ok tt, l)) (give-none es)
scan_blocks-give g ((height, ts) ∷ bs) h =
    Gives-and_then g (scan_transactions g height ts) (scan_blocks g bs)
      (λ d. transactions_found height d ts) (λ d. found d bs)
      (scan_transactions-give g height ts h.0) (scan_blocks-give g bs h.1)

-- What becomes of one event: its execution status is kept, a shared destination marks it, and the
-- matches for its destination are recorded in the order of the blocks.
abbrev pub settled : Bool → List DestinationMatch → RoundEvent → RoundEvent
settled shared ms e = add_all ms (mark_if shared (preserve_execution_status e))

abbrev pub settle : List RoundEvent → List (ℕ × List Transaction) → RoundEvent → RoundEvent
settle events blocks e =
    let d = destination_address e in settled (is_shared (destinations events) d) (found d blocks) e

destination-prepared :
    (b : Bool) (e : RoundEvent)
    → destination_address (mark_if b (preserve_execution_status e)) ≡ destination_address e
unfolding destination_address preserve_execution_status
destination-prepared true e = destination-mark (preserve_execution_status e)
destination-prepared false e = refl

destination-preserve :
    (e : RoundEvent) → destination_address (preserve_execution_status e) ≡ destination_address e
unfolding destination_address preserve_execution_status
destination-preserve e = refl

module _ (shared : Option String → Bool) where
  -- The events as the first two loops leave them.
  abbrev prepared : List RoundEvent → List RoundEvent
  prepared es =
      map (λ e. mark_if (shared (destination_address e)) e) (map preserve_execution_status es)

  destinations-prepared : (es : List RoundEvent) → destinations (prepared es) ≡ destinations es
  destinations-prepared [] = refl
  destinations-prepared (e ∷ es) =
      ap₂ (λ d ds. d ∷ ds)
        (destination-prepared (shared (destination_address (preserve_execution_status e))) e)
        (destinations-prepared es)

  give-prepared :
      (ms : Option String → List DestinationMatch) (es : List RoundEvent)
      → give ms (prepared es)
        ≡ map (λ e. settled (shared (destination_address e)) (ms (destination_address e)) e) es
  give-prepared ms [] = refl
  give-prepared ms (e ∷ es) =
      let d' = destination_address (preserve_execution_status e) in
      let marked = mark_if (shared d') (preserve_execution_status e) in
      ap₂ (λ x xs. x ∷ xs)
        (ap (λ d. add_all (ms d) marked) (destination-prepared (shared d') e)
          ∙ ap (λ d. settled (shared d) (ms (destination_address e)) e) (destination-preserve e))
        (give-prepared ms es)

destinations-preserve :
    (es : List RoundEvent) → destinations (map preserve_execution_status es) ≡ destinations es
destinations-preserve [] = refl
destinations-preserve (e ∷ es) =
    ap₂ (λ d ds. d ∷ ds) (destination-preserve e) (destinations-preserve es)

-- If every transaction of the blocks has an id, the reconciliation succeeds, and it makes of each
-- event what it makes of that event alone: by its destination, by whether another event shares the
-- destination, and by the matches for it in the blocks.
pub reconcile-settles :
    (events : List RoundEvent) (blocks : List (ℕ × List Transaction))
    → AllTxids blocks
    → reconcile_round_event_destinations events blocks ≡ (ok tt, map (settle events blocks) events)
unfolding reconcile_round_event_destinations
reconcile-settles events blocks h =
    let kept = map preserve_execution_status events in
    let groups = group_from 0 kept [] in
    let same = destinations-preserve events in
    let shared = is_shared (destinations kept) in
    let refers : Refers groups (prepared shared events) = λ a.
      (grouped kept).complete a
      ∙ ap (places a 0) (same ∙ sym (destinations-prepared shared events)) in
    ap (scan_blocks groups blocks) (mark_shared-eq kept)
    ∙ scan_blocks-give groups blocks h (prepared shared events) refers
    ∙ ap (λ l. (ok tt, l)) (give-prepared shared (λ d. found d blocks) events)
    ∙ ap
        (λ ds. (
          ok tt,
          map
              (λ e.
                settled (is_shared ds (destination_address e))
                  (found (destination_address e) blocks) e)
              events,
        ))
        same
