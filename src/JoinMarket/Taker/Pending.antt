-- ===== src/JoinMarket/Taker/Pending.antt =====
-- A taker never has two attempts pending, whatever jmwalletd answers, however the engine's scans and
-- timeouts come between its updates: an invariant of every state that steps lead to.
use mathlib.Core.List.{reverse, reverse-append}
use coinjoin_emulator.Base.{
  ℕ, ◌+◌, ◌≡◌, refl, ◌∙◌, ap, Bool, true, false, String, Option, none, some, List, [], ◌∷◌, map,
  Result, arith, count_if, count_if-append, any, ◌≤◌,
}
use coinjoin_emulator.Base.Int.{ℤ}
use coinjoin_emulator.Rounds.{RoundEvent}
use coinjoin_emulator.Rounds.Reconcile.{Transaction}
use coinjoin_emulator.Rounds.Agreement.{settle}
use coinjoin_emulator.Rounds.Confirm.{
  is_started, mark_first, mark_failed, mark_latest_started_round_failed,
}
use coinjoin_emulator.Rounds.Confirm.Counting.{on_started}
use coinjoin_emulator.JoinMarket.{Offer, ClientError, get_offer, or_false}
use coinjoin_emulator.JoinMarket.Taker.{
  Taker, Answers, has_unconfirmed_round, refreshed, record_round_start, record_round_start_outcome,
  started_attempt, start_at, if_answered, stop_timed_out, start_attempt, proceed, proceed_async,
  update, update_async,
}

-- The attempts that wait for their destination to be mined.
abbrev pub pending : Taker → ℕ
pending t = count_if is_started t.round_events

none-pending : (es : List RoundEvent) → any is_started es ≡ false → count_if is_started es ≡ 0
none-pending [] h = refl
none-pending (e ∷ es) h = ground (arith, none-pending es)

pending-refreshed : (b : Bool) (t : Taker) → pending (refreshed b t) ≡ pending t
unfolding refreshed
pending-refreshed b t = ground arith

one-started :
    (b : Bool) (t : Taker) (d : String) (o : Offer) (n : ℕ)
    → is_started (record_round_start_outcome b (record_round_start t d o n)) ≡ true
unfolding record_round_start_outcome record_round_start is_started
one-started true t d o n = refl
one-started false t d o n = refl

pending-started :
    (b : Bool) (d : String) (o : Offer) (n : ℕ) (t : Taker)
    → pending (started_attempt b d o n t).1 ≡ pending t + 1
unfolding started_attempt
pending-started true d o n t =
    let e = record_round_start_outcome true (record_round_start t d o n) in
    ground (arith, count_if-append is_started t.round_events (e ∷ []), one-started true t d o n)
pending-started false d o n t =
    let e = record_round_start_outcome false (record_round_start t d o n) in
    ground (arith, count_if-append is_started t.round_events (e ∷ []), one-started false t d o n)

pending-start_at :
    (s : Option String) (b : Bool) (o : Offer) (n : ℕ) (t : Taker)
    → pending (start_at s b o n t).1 ≤ pending t + 1
unfolding start_at
pending-start_at none b o n t = omega arith
pending-start_at (some d) b o n t = omega (arith, pending-started b d o n t)

pending-start :
    (o : Option Offer) (a : Answers) (n : ℕ) (t : Taker)
    → pending (start_attempt o a n t).1 ≤ pending t + 1
unfolding start_attempt
pending-start none a n t = omega arith
pending-start (some o) a n t = pending-start_at a.address a.acknowledged o n t

-- A start comes only when nothing is pending.
pending-proceed :
    (a : Answers) (block round : ℕ) (t : Taker)
    → pending t ≤ 1
    → pending (proceed a block round t).1 ≤ 1
unfolding proceed has_unconfirmed_round stop_timed_out
pending-proceed a block round t h =
    let start = pending-start (get_offer t.offers round) a block t in
    let idle = none-pending t.round_events in ground (arith, start, idle)

pending-proceed_async :
    (a : Answers) (block round : ℕ) (t : Taker)
    → pending t ≤ 1
    → pending (proceed_async a block round t).1 ≤ 1
unfolding proceed_async has_unconfirmed_round stop_timed_out
pending-proceed_async a block round t h =
    let start = pending-start (get_offer t.offers round) a block t in
    let idle = none-pending t.round_events in ground (arith, start, idle)

pending-if_answered :
    (next : Taker → Result ClientError ℤ × Taker) (s : Option Bool) (t : Taker)
    → ((u : Taker) → pending u ≤ 1 → pending (next u).1 ≤ 1)
    → pending t ≤ 1
    → pending (if_answered next s t).1 ≤ 1
unfolding if_answered
pending-if_answered next none t keeps h = h
pending-if_answered next (some b) t keeps h =
    keeps (refreshed b t) (omega (arith, pending-refreshed b t))

pub count-on_started :
    (f : RoundEvent → RoundEvent) (es : List RoundEvent)
    → count_if is_started (map (on_started f) es) ≤ count_if is_started es
count-on_started f [] = omega arith
count-on_started f (e ∷ es) = ground (arith, count-on_started f es)

failed-mark :
    (reason : String) (n : ℕ) (e : RoundEvent) → is_started (mark_failed reason n e) ≡ false
unfolding mark_failed is_started
failed-mark reason n e = refl

count-mark_first :
    (taker reason : String) (n : ℕ) (es : List RoundEvent)
    → count_if is_started (mark_first taker reason n es) ≤ count_if is_started es
unfolding mark_first
count-mark_first taker reason n [] = omega arith
count-mark_first taker reason n (e ∷ es) =
    ground (arith, count-mark_first taker reason n es, failed-mark reason n e)

count-reverse : (es : List RoundEvent) → count_if is_started (reverse es) ≡ count_if is_started es
count-reverse [] = refl
count-reverse (e ∷ es) =
    ap (count_if is_started) (reverse-append (e ∷ []) es)
    ∙ count_if-append is_started (reverse es) (e ∷ [])
    ∙ (omega (arith, count-reverse es))

count-mark_latest :
    (es : List RoundEvent) (taker reason : String) (n : ℕ)
    → count_if is_started (mark_latest_started_round_failed es taker reason n)
      ≤ count_if is_started es
unfolding mark_latest_started_round_failed
count-mark_latest es taker reason n = omega (
  arith,
  count-reverse (mark_first taker reason n (reverse es)),
  count-reverse es,
  count-mark_first taker reason n (reverse es),
)

-- What happens to a taker: its two updates, the engine's scan, which settles its started rounds among
-- those of all takers, and the engine's mark on a round that timed out.
pub data Step : Taker → Taker → Type 0 where
  updated : (a : Answers) (block round : ℕ) (t : Taker) → Step t (update a block round t).1
  updated_async :
      (a : Answers) (block round : ℕ) (t : Taker) → Step t (update_async a block round t).1
  scanned :
      (started : List RoundEvent) (blocks : List (ℕ × List Transaction)) (t : Taker)
      → Step t (record t { round_events = map (on_started (settle started blocks)) t.round_events })
  timed_out :
      (reason : String) (block : ℕ) (t : Taker)
      → Step t (record t {
        round_events = mark_latest_started_round_failed t.round_events t.name reason block;
      })

-- The states that steps lead to.
pub data Reachable (t : Taker) : Taker → Type 0 where
  initially : Reachable t t
  then_by : {u v : Taker} → Reachable t u → Step u v → Reachable t v

-- A step keeps at most one attempt pending.
pub pending-Step : {t u : Taker} → Step t u → pending t ≤ 1 → pending u ≤ 1
unfolding update update_async
pending-Step (updated a block round t) h =
    pending-if_answered (proceed a block round) a.session t (pending-proceed a block round) h
pending-Step (updated_async a block round t) h =
    let b = or_false a.session in
    pending-proceed_async a block round (refreshed b t) (omega (arith, pending-refreshed b t, h))
pending-Step (scanned started blocks t) h =
    omega (arith, count-on_started (settle started blocks) t.round_events)
pending-Step (timed_out reason block t) h =
    omega (arith, count-mark_latest t.round_events t.name reason block)

-- From a taker with no round events no steps lead to a taker with two attempts pending.
pub pending-Reachable : {t u : Taker} → t.round_events ≡ [] → Reachable t u → pending u ≤ 1
pending-Reachable {t} fresh initially = ground (arith, ap (count_if is_started) fresh)
pending-Reachable fresh (then_by before step) = pending-Step step (pending-Reachable fresh before)
