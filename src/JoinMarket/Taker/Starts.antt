-- ===== src/JoinMarket/Taker/Starts.antt =====
-- When an update starts an attempt, and what is left of a start that was not answered.
use coinjoin_emulator.Base.{
  ℕ, ◌≡◌, refl, ◌∙◌, ap, sym, subst, Bool, true, false, not, ◌&&◌, String, Option, none, some, [],
  ◌∷◌, ◌++◌, if◌then◌else◌, ok, err, arith, is_some, ◌↔◌,
}
use coinjoin_emulator.Base.Int.{pos}
use coinjoin_emulator.Rounds.{RoundEvent, Status, ExecutionStatus}
use coinjoin_emulator.Schedule.{is_paused}
use coinjoin_emulator.JoinMarket.{Offer, ClientError, get_offer}
use coinjoin_emulator.JoinMarket.Taker.{
  Taker, Answers, has_unconfirmed_round, refreshed, record_round_start, record_round_start_outcome,
  started_attempt, start_at, start_attempt, proceed, update, finished_attempt_result, if_answered,
}

-- What a start needs: nothing pending, no pause, an offer, an address, and jmwalletd's answer.
abbrev pub can_start : Answers → ℕ → ℕ → Taker → Bool
can_start a block round t =
    not (has_unconfirmed_round t)
    && (not (is_paused t.pacing block round)
        && (is_some (get_offer t.offers round) && (is_some a.address && a.acknowledged)))

start_at-outcome :
    (s : Option String) (b : Bool) (o : Offer) (n : ℕ) (t : Taker)
    → (start_at s b o n t).0 ≡ (
        if is_some s
        then (if b then ok (pos 1) else err ClientError.start_failed)
        else err ClientError.no_address)
unfolding start_at started_attempt
start_at-outcome none b o n t = refl
start_at-outcome (some d) true o n t = refl
start_at-outcome (some d) false o n t = refl

start_attempt-outcome :
    (o : Option Offer) (a : Answers) (n : ℕ) (t : Taker)
    → (start_attempt o a n t).0 ≡ (
        if is_some o
        then (if is_some a.address
            then (if a.acknowledged then ok (pos 1) else err ClientError.start_failed)
            else err ClientError.no_address)
        else err ClientError.no_offer)
unfolding start_attempt
start_attempt-outcome none a n t = refl
start_attempt-outcome (some o) a n t = start_at-outcome a.address a.acknowledged o n t

proceed-start :
    (a : Answers) (block round : ℕ) (t : Taker)
    → ((proceed a block round t).0 ≡ ok (pos 1))
      ↔ ((t.coinjoin_in_process ≡ false) × (can_start a block round t ≡ true))
unfolding proceed finished_attempt_result
proceed-start a block round t =
    let outcome = start_attempt-outcome (get_offer t.offers round) a block t in
    (λ h. ground (arith, outcome), λ h. ground (arith, outcome))

in_process-refreshed : (b : Bool) (t : Taker) → (refreshed b t).coinjoin_in_process ≡ b
unfolding refreshed
in_process-refreshed b t = ground arith

answered-start :
    (a : Answers) (s : Option Bool) (block round : ℕ) (t : Taker)
    → ((if_answered (proceed a block round) s t).0 ≡ ok (pos 1))
      ↔ ((s ≡ some false) × (can_start a block round (refreshed false t) ≡ true))
unfolding if_answered
answered-start a none block round t = (λ h. absurd (cc h), λ h. absurd (cc (h.0)))
answered-start a (some true) block round t =
    let p = proceed-start a block round (refreshed true t) in
    let q = in_process-refreshed true t in (λ h. absurd (cc (q, (p.0 h).0)), λ h. absurd (cc (h.0)))
answered-start a (some false) block round t =
    let p = proceed-start a block round (refreshed false t) in
    (λ h. (refl, (p.0 h).1), λ h. p.1 (in_process-refreshed false t, h.1))

-- An update starts an attempt, and returns 1, exactly when jmwalletd reports no coinjoin in process,
-- no attempt is pending, the taker is not paused, it has an offer, an address is given, and the start
-- is acknowledged.
pub update_starts_iff :
    (a : Answers) (block round : ℕ) (t : Taker)
    → ((update a block round t).0 ≡ ok (pos 1))
      ↔ ((a.session ≡ some false) × (can_start a block round (refreshed false t) ≡ true))
unfolding update
update_starts_iff a block round t = answered-start a a.session block round t

-- A round that waits for its destination, though its start was not answered.
pub record Unanswered (t u : Taker) : Type 0 where
  pub attempt : RoundEvent
  pub kept : u.round_events ≡ t.round_events ++ attempt ∷ []
  pub waits : attempt.status ≡ Status.started
  pub doubtful : attempt.execution_status ≡ some ExecutionStatus.unknown

start_at-failed :
    (s : Option String) (b : Bool) (o : Offer) (n : ℕ) (t : Taker)
    → (start_at s b o n t).0 ≡ err ClientError.start_failed
    → Unanswered t (start_at s b o n t).1
unfolding start_at started_attempt record_round_start_outcome record_round_start
start_at-failed none b o n t h = absurd (cc h)
start_at-failed (some d) true o n t h = absurd (cc h)
start_at-failed (some d) false o n t h = record {
  attempt = _;
  kept = refl;
  waits = refl;
  doubtful = refl;
}

start_attempt-failed :
    (o : Option Offer) (a : Answers) (n : ℕ) (t : Taker)
    → (start_attempt o a n t).0 ≡ err ClientError.start_failed
    → Unanswered t (start_attempt o a n t).1
unfolding start_attempt
start_attempt-failed none a n t h = absurd (cc h)
start_attempt-failed (some o) a n t h = start_at-failed a.address a.acknowledged o n t h

-- Only the attempt itself raises.
fails-attempt :
    (a : Answers) (block round : ℕ) (t : Taker)
    → (proceed a block round t).0 ≡ err ClientError.start_failed
    → proceed a block round t ≡ start_attempt (get_offer t.offers round) a block t
unfolding proceed
fails-attempt a block round t h = ground (arith, h)

proceed-failed :
    (a : Answers) (block round : ℕ) (t : Taker)
    → (proceed a block round t).0 ≡ err ClientError.start_failed
    → Unanswered t (proceed a block round t).1
proceed-failed a block round t h =
    let e = fails-attempt a block round t h in
    subst (λ r. Unanswered t r.1) (sym e)
      (start_attempt-failed (get_offer t.offers round) a block t (sym (ap (λ r. r.0) e) ∙ h))

events-refreshed : (b : Bool) (t : Taker) → (refreshed b t).round_events ≡ t.round_events
unfolding refreshed
events-refreshed b t = ground arith

if_answered-failed :
    (a : Answers) (s : Option Bool) (block round : ℕ) (t : Taker)
    → (if_answered (proceed a block round) s t).0 ≡ err ClientError.start_failed
    → Unanswered t (if_answered (proceed a block round) s t).1
unfolding if_answered
if_answered-failed a none block round t h = absurd (cc h)
if_answered-failed a (some b) block round t h =
    let u = proceed-failed a block round (refreshed b t) h in
    record {
      attempt = u.attempt;
      kept = u.kept ∙ ap (λ es. es ++ u.attempt ∷ []) (events-refreshed b t);
      waits = u.waits;
      doubtful = u.doubtful;
    }

-- A start that is not answered leaves its attempt recorded: the taker's events are the old ones and
-- one more, which is still pending, with the execution status unknown.
pub update-Unanswered :
    (a : Answers) (block round : ℕ) (t : Taker)
    → (update a block round t).0 ≡ err ClientError.start_failed
    → Unanswered t (update a block round t).1
unfolding update
update-Unanswered a block round t h = if_answered-failed a a.session block round t h
