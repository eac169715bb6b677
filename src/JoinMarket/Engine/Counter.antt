-- ===== src/JoinMarket/Engine/Counter.antt =====
-- The updates of the clients in a tick of the synchronous update keep the number of confirmed rounds.
use coinjoin_emulator.Base.{
  ℕ, zero, suc, ◌+◌, ◌≡◌, refl, ◌∙◌, ap, Bool, true, false, Option, none, some, List, [], ◌∷◌, take,
  drop, length, modify, get_elem?, arith, count_if, count_if-append, Result, ok, err, String,
  or_default,
}
use coinjoin_emulator.Base.Int.{ℤ, pos, negsuc}
use coinjoin_emulator.Rounds.{RoundEvent}
use coinjoin_emulator.Rounds.Confirm.{is_confirmed}
use coinjoin_emulator.JoinMarket.{Offer, ClientError, get_offer}
use coinjoin_emulator.JoinMarket.Taker.{
  Taker, Answers, refreshed, record_round_start, record_round_start_outcome, started_attempt,
  start_at, start_attempt, proceed, if_answered, stop_timed_out, update,
}
use coinjoin_emulator.JoinMarket.Engine.{
  Client, taker, maker, tumbler, ClientAnswers, client_name, events_of, with_events,
  live_round_events, give_back, update_client, mark_taker_round_failed, mark_timed_out,
  update_found, update_clients_from,
}
use coinjoin_emulator.JoinMarket.Engine.Calmer.{
  Pointwise, Pointwise-take, Pointwise-drop, Pointwise-mark_latest, Same, count-Same, Same-mark,
}

-- The confirmed rounds among events.
abbrev pub confirmed : List RoundEvent → ℕ
confirmed es = count_if is_confirmed es

confirmed-refreshed :
    (b : Bool) (t : Taker) → confirmed (refreshed b t).round_events ≡ confirmed t.round_events
unfolding refreshed
confirmed-refreshed b t = ground arith

start-not_confirmed :
    (b : Bool) (t : Taker) (d : String) (o : Offer) (n : ℕ)
    → is_confirmed (record_round_start_outcome b (record_round_start t d o n)) ≡ false
unfolding record_round_start_outcome record_round_start is_confirmed
start-not_confirmed true t d o n = refl
start-not_confirmed false t d o n = refl

confirmed-started :
    (b : Bool) (d : String) (o : Offer) (n : ℕ) (t : Taker)
    → confirmed (started_attempt b d o n t).1.round_events ≡ confirmed t.round_events
unfolding started_attempt
confirmed-started true d o n t =
    let e = record_round_start_outcome true (record_round_start t d o n) in
    ground (
      arith,
      count_if-append is_confirmed t.round_events (e ∷ []),
      start-not_confirmed true t d o n,
    )
confirmed-started false d o n t =
    let e = record_round_start_outcome false (record_round_start t d o n) in
    ground (
      arith,
      count_if-append is_confirmed t.round_events (e ∷ []),
      start-not_confirmed false t d o n,
    )

confirmed-start_at :
    (s : Option String) (b : Bool) (o : Offer) (n : ℕ) (t : Taker)
    → confirmed (start_at s b o n t).1.round_events ≡ confirmed t.round_events
unfolding start_at
confirmed-start_at none b o n t = refl
confirmed-start_at (some d) b o n t = confirmed-started b d o n t

confirmed-start :
    (o : Option Offer) (a : Answers) (n : ℕ) (t : Taker)
    → confirmed (start_attempt o a n t).1.round_events ≡ confirmed t.round_events
unfolding start_attempt
confirmed-start none a n t = refl
confirmed-start (some o) a n t = confirmed-start_at a.address a.acknowledged o n t

confirmed-proceed :
    (a : Answers) (block round : ℕ) (t : Taker)
    → confirmed (proceed a block round t).1.round_events ≡ confirmed t.round_events
unfolding proceed stop_timed_out
confirmed-proceed a block round t =
    let start = confirmed-start (get_offer t.offers round) a block t in ground (arith, start)

confirmed-if_answered :
    (a : Answers) (block round : ℕ) (s : Option Bool) (t : Taker)
    → confirmed (if_answered (proceed a block round) s t).1.round_events ≡ confirmed t.round_events
unfolding if_answered
confirmed-if_answered a block round none t = refl
confirmed-if_answered a block round (some b) t =
    confirmed-proceed a block round (refreshed b t) ∙ confirmed-refreshed b t

confirmed-update :
    (a : ClientAnswers) (block round : ℕ) (c : Client)
    → confirmed (events_of (update_client a block round c).1) ≡ confirmed (events_of c)
unfolding update_client events_of update
confirmed-update a block round (taker t) =
    confirmed-if_answered a.to_taker block round a.to_taker.session t
confirmed-update a block round (maker n m) = refl
confirmed-update a block round (tumbler n t) = refl

confirmed-with_events :
    (c : Client) (es : List RoundEvent)
    → Pointwise Same es (events_of c)
    → confirmed (events_of (with_events es c)) ≡ confirmed (events_of c)
unfolding events_of with_events
confirmed-with_events (taker t) es p = count-Same es t.round_events p
confirmed-with_events (maker n m) es p = refl
confirmed-with_events (tumbler n t) es p = refl

confirmed-give_back :
    (cs : List Client) (es : List RoundEvent)
    → Pointwise Same es (live_round_events cs)
    → confirmed (live_round_events (give_back es cs)) ≡ confirmed (live_round_events cs)
unfolding give_back live_round_events
confirmed-give_back [] es p = refl
confirmed-give_back (c ∷ cs) es p =
    let own = events_of c in
    let others = live_round_events cs in
    let mine = take (length own) es in
    let theirs = drop (length own) es in
    omega (
      arith,
      count_if-append is_confirmed (events_of (with_events mine c))
          (live_round_events (give_back theirs cs)),
      count_if-append is_confirmed own others,
      confirmed-with_events c mine (Pointwise-take Same es own others p),
      confirmed-give_back cs theirs (Pointwise-drop Same es own others p),
    )

confirmed-mark :
    (out : Result ClientError ℤ) (name : String) (block : ℕ) (cs : List Client)
    → confirmed (live_round_events (mark_timed_out out name block cs))
      ≡ confirmed (live_round_events cs)
unfolding mark_timed_out mark_taker_round_failed
confirmed-mark (ok (pos _)) name block cs = refl
confirmed-mark (err _) name block cs = refl
confirmed-mark (ok (negsuc _)) name block cs = confirmed-give_back cs _ (
    Pointwise-mark_latest Same name "coinjoin attempt timed out" block (λ e. refl)
      (Same-mark name "coinjoin attempt timed out" block) (live_round_events cs))

confirmed-modify :
    (cs : List Client) (i : ℕ) (c d : Client)
    → get_elem? cs i ≡ some c
    → confirmed (events_of d) ≡ confirmed (events_of c)
    → confirmed (live_round_events (modify i (λ _. d) cs)) ≡ confirmed (live_round_events cs)
unfolding live_round_events
confirmed-modify [] i c d q h = absurd (cc q)
confirmed-modify (x ∷ xs) zero c d q h =
    let same = ap (λ (o : Option Client). confirmed (events_of (or_default o c))) q in
    omega (
      arith,
      count_if-append is_confirmed (events_of d) (live_round_events xs),
      count_if-append is_confirmed (events_of x) (live_round_events xs),
      h,
      same,
    )
confirmed-modify (x ∷ xs) (suc i) c d q h = omega (
  arith,
  count_if-append is_confirmed (events_of x) (live_round_events (modify i (λ _. d) xs)),
  count_if-append is_confirmed (events_of x) (live_round_events xs),
  confirmed-modify xs i c d q h,
)

confirmed-update_found :
    (a : ClientAnswers) (block round i : ℕ) (o : Option Client) (cs : List Client)
    → get_elem? cs i ≡ o
    → confirmed (live_round_events (update_found a block round i o cs))
      ≡ confirmed (live_round_events cs)
unfolding update_found
confirmed-update_found a block round i none cs q = refl
confirmed-update_found a block round i (some c) cs q =
    let d = (update_client a block round c).1 in
    confirmed-mark (update_client a block round c).0 (client_name d) block (modify i (λ _. d) cs)
    ∙ confirmed-modify cs i c d q (confirmed-update a block round c)

-- The updates of all clients confirm no round, and take no confirmation back.
pub confirmed-update_clients :
    (answers : ℕ → ClientAnswers) (block round i n : ℕ) (cs : List Client)
    → confirmed (live_round_events (update_clients_from answers block round i n cs))
      ≡ confirmed (live_round_events cs)
unfolding update_clients_from
confirmed-update_clients answers block round i zero cs = refl
confirmed-update_clients answers block round i (suc n) cs =
    confirmed-update_clients answers block round (i + 1) n
      (update_found (answers i) block round i (get_elem? cs i) cs)
    ∙ confirmed-update_found (answers i) block round i (get_elem? cs i) cs refl
