-- ===== src/Rounds/Verdict.antt =====
-- The status that a round ends with.
pub mod Sole
use coinjoin_emulator.Base.{
  ◌≡◌, refl, ◌≢◌, ◌∙◌, ap, sym, Bool, true, false, Option, none, some, List, [], ◌∷◌, if◌then◌else◌,
  inl, inr, arith, length, length-append, ◌≤◌, ◌⊎◌, All, Bool-cases, str_eq, eq_iff, ◌==◌, ==_iff,
  ◌&&◌, ◌↔◌, String, some-inj,
}
use coinjoin_emulator.Rounds.{
  Status, ExecutionStatus, RoundEvent, DestinationMatch, add_new, same_match, is_status,
  matched_status, sole_txid, add_destination_match, preserve_execution_status,
  mark_duplicate_destination, set_default, local_execution, confirmed_destination_txid,
}
use coinjoin_emulator.Rounds.Marks.{mark_if}
use coinjoin_emulator.Rounds.Agreement.{add_all, settled}

-- Matches collected without repetition, after those at hand.
abbrev pub collect : List DestinationMatch → List DestinationMatch → List DestinationMatch
collect [] at_hand = at_hand
collect (m ∷ ms) at_hand = collect ms (add_new m at_hand)

-- The status by the number of distinct matches: none leaves it, one confirms, more are a conflict.
abbrev pub by_count : Status → List DestinationMatch → Status
by_count old [] = old
by_count old (m ∷ []) = Status.confirmed
by_count old (m ∷ n ∷ ms) = Status.multiple_matches

matches-add_all :
    (ms : List DestinationMatch) (e : RoundEvent)
    → (add_all ms e).destination_matches ≡ collect ms e.destination_matches
unfolding add_destination_match
matches-add_all [] e = refl
matches-add_all (m ∷ ms) e = matches-add_all ms (add_destination_match m e)

-- Recording a match leaves at least one.
add_new-pos : (m : DestinationMatch) (ms : List DestinationMatch) → 1 ≤ length (add_new m ms)
unfolding add_new
add_new-pos m [] = omega arith
add_new-pos m (n ∷ ms) = ground (arith, length-append ms (m ∷ []))

status-duplicate :
    (ms : List DestinationMatch) (e : RoundEvent)
    → e.status ≡ Status.duplicate_destination
    → (add_all ms e).status ≡ Status.duplicate_destination
unfolding add_destination_match
status-duplicate [] e h = h
status-duplicate (m ∷ ms) e h = status-duplicate ms (add_destination_match m e) (ground arith)

not_duplicate :
    (s : Status)
    → s ≢ Status.duplicate_destination
    → is_status s Status.duplicate_destination ≡ false
unfolding is_status
not_duplicate Status.duplicate_destination h = absurd (h refl)
not_duplicate _ h = refl

by_count-ne :
    (old : Status) (ms : List DestinationMatch)
    → old ≢ Status.duplicate_destination
    → by_count old ms ≢ Status.duplicate_destination
by_count-ne old [] ne = ne
by_count-ne old (m ∷ []) ne = λ p. absurd (cc p)
by_count-ne old (m ∷ n ∷ ms) ne = λ p. absurd (cc p)

matched-by_count :
    (s old : Status) (ms : List DestinationMatch)
    → 1 ≤ length ms
    → is_status s Status.duplicate_destination ≡ false
    → matched_status s ms ≡ by_count old ms
unfolding matched_status
matched-by_count s old [] h e = absurd (omega arith)
matched-by_count s old (m ∷ []) h e = rw e
matched-by_count s old (m ∷ n ∷ ms) h e = ground (arith, e)

-- A status that agrees with the matches at hand keeps agreeing.
status-add :
    (m : DestinationMatch) (e : RoundEvent) (old : Status)
    → old ≢ Status.duplicate_destination
    → e.status ≡ by_count old e.destination_matches
    → (add_destination_match m e).status
      ≡ by_count old (add_destination_match m e).destination_matches
unfolding add_destination_match
status-add m e old ne h =
    matched-by_count e.status old (add_new m e.destination_matches)
      (add_new-pos m e.destination_matches)
      (not_duplicate e.status (λ p. by_count-ne old e.destination_matches ne (sym h ∙ p)))

status-add_all :
    (ms : List DestinationMatch) (e : RoundEvent) (old : Status)
    → old ≢ Status.duplicate_destination
    → e.status ≡ by_count old e.destination_matches
    → (add_all ms e).status ≡ by_count old (add_all ms e).destination_matches
status-add_all [] e old ne h = h
status-add_all (m ∷ ms) e old ne h =
    status-add_all ms (add_destination_match m e) old ne (status-add m e old ne h)

-- A round not reconciled before, and not confirmed or in conflict.
pub record IsPending (e : RoundEvent) : Type 0 where
  pub no_matches : e.destination_matches ≡ []
  pub attempt : (e.status ≡ Status.started) ⊎ (e.status ≡ Status.failed)

-- The verdict on a round: a shared destination, or else the number of distinct matches.
abbrev pub verdict : Bool → Status → List DestinationMatch → Status
verdict true old ms = Status.duplicate_destination
verdict false old ms = by_count old ms

pending-ne : (e : RoundEvent) → IsPending e → e.status ≢ Status.duplicate_destination
pending-ne e p h = elim p.attempt [ inl q ↦ cc (q, h) | inr q ↦ cc (q, h) ]

pub matches-settled :
    (shared : Bool) (ms : List DestinationMatch) (e : RoundEvent)
    → IsPending e
    → (settled shared ms e).destination_matches ≡ collect ms []
unfolding preserve_execution_status mark_duplicate_destination
matches-settled true ms e p =
    matches-add_all ms (mark_duplicate_destination (preserve_execution_status e))
    ∙ ap (collect ms) p.no_matches
matches-settled false ms e p =
    matches-add_all ms (preserve_execution_status e) ∙ ap (collect ms) p.no_matches

-- The status of a pending round after it is settled.
pub status-settled :
    (shared : Bool) (ms : List DestinationMatch) (e : RoundEvent)
    → IsPending e
    → (settled shared ms e).status ≡ verdict shared e.status (collect ms [])
unfolding preserve_execution_status mark_duplicate_destination
status-settled true ms e p =
    status-duplicate ms (mark_duplicate_destination (preserve_execution_status e)) refl
status-settled false ms e p =
    status-add_all ms (preserve_execution_status e) e.status (pending-ne e p)
      (ap (by_count e.status) (sym p.no_matches))
    ∙ ap (by_count e.status) (matches-settled false ms e p)

some_execution :
    (e : RoundEvent)
    → IsPending e
    → (s : ExecutionStatus) × (set_default e.execution_status (local_execution e.status) ≡ some s)
some_execution e p = go e.execution_status e.status p.attempt
  where
    go :
        (o : Option ExecutionStatus) (st : Status)
        → (st ≡ Status.started) ⊎ (st ≡ Status.failed)
        → (s : ExecutionStatus) × (set_default o (local_execution st) ≡ some s)
    go (some s) st h = (s, unfold set_default in refl)
    go none st (inl q) = (ExecutionStatus.started, unfold set_default local_execution in rw q refl)
    go none st (inr q) = (ExecutionStatus.failed, unfold set_default local_execution in rw q refl)

-- A known execution status is not replaced.
execution-kept :
    (ms : List DestinationMatch) (e : RoundEvent) (s : ExecutionStatus)
    → e.execution_status ≡ some s
    → (add_all ms e).execution_status ≡ some s
unfolding add_destination_match set_default
execution-kept [] e s h = h
execution-kept (m ∷ ms) e s h = execution-kept ms (add_destination_match m e) s (ground (arith, h))

execution-marked :
    (shared : Bool) (e : RoundEvent) (s : ExecutionStatus)
    → set_default e.execution_status (local_execution e.status) ≡ some s
    → (mark_if shared (preserve_execution_status e)).execution_status ≡ some s
unfolding mark_duplicate_destination preserve_execution_status set_default
execution-marked true e s h = ground (arith, h)
execution-marked false e s h = h

-- Reconciliation keeps the execution status that a round has, or records its status as such.
pub execution-settled :
    (shared : Bool) (ms : List DestinationMatch) (e : RoundEvent)
    → IsPending e
    → (settled shared ms e).execution_status
      ≡ set_default e.execution_status (local_execution e.status)
execution-settled shared ms e p =
    let (s, known) = some_execution e p in
    execution-kept ms (mark_if shared (preserve_execution_status e)) s
      (execution-marked shared e s known)
    ∙ sym known
