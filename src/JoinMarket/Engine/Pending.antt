-- ===== src/JoinMarket/Engine/Pending.antt =====
-- A tick of the engine keeps every taker at one pending attempt at most.
use coinjoin_emulator.Base.{
  ℕ, zero, suc, ◌+◌, ◌≤◌, sym, subst, Option, none, some, List, [], ◌∷◌, map, take, drop, length,
  get_elem?, arith, count_if, All, All-modify, if_both, Result, ok, err, keep, String,
}
use coinjoin_emulator.Base.Int.{ℤ, pos, negsuc}
use coinjoin_emulator.Rounds.{RoundEvent}
use coinjoin_emulator.Rounds.Reconcile.{Transaction, RoundError}
use coinjoin_emulator.Rounds.Agreement.{AllTxids, settle}
use coinjoin_emulator.Rounds.Confirm.{is_started, new_blocks}
use coinjoin_emulator.Rounds.Confirm.Counting.{confirm_rounds-new_blocks}
use coinjoin_emulator.JoinMarket.{ClientError}
use coinjoin_emulator.JoinMarket.Taker.Pending.{Step, pending-Step}
use coinjoin_emulator.JoinMarket.Engine.{
  Client, taker, maker, tumbler, ClientAnswers, client_name, events_of, with_events,
  live_round_events, give_back, update_client, update_client_async, mark_taker_round_failed,
  mark_timed_out, update_found, update_clients_from, gather, mark_all, Engine, round_limit_reached,
  after_clients_scan, confirm_clients, unless_limited, update_coinjoins, update_coinjoins_async,
}
use coinjoin_emulator.JoinMarket.Engine.Calmer.{
  Pointwise, Pointwise-take, Pointwise-drop, Pointwise-mark_latest, Calmer, count-Calmer,
  Calmer-on_started, Calmer-mark,
}

-- At most one attempt of the client waits for its destination.
abbrev pub OnePending : Client → Type 0
OnePending c = count_if is_started (events_of c) ≤ 1

OnePending-with_events :
    (c : Client) (es : List RoundEvent)
    → Pointwise Calmer es (events_of c)
    → OnePending c
    → OnePending (with_events es c)
unfolding events_of with_events
OnePending-with_events (taker t) es p h = omega (arith, count-Calmer es t.round_events p, h)
OnePending-with_events (maker n m) es p h = h
OnePending-with_events (tumbler n t) es p h = h

OnePending-give_back :
    (cs : List Client) (es : List RoundEvent)
    → Pointwise Calmer es (live_round_events cs)
    → All OnePending cs
    → All OnePending (give_back es cs)
unfolding give_back live_round_events
OnePending-give_back [] es p h = tt
OnePending-give_back (c ∷ cs) es p h =
    let own = events_of c in
    let others = live_round_events cs in
    (
      OnePending-with_events c (take (length own) es) (Pointwise-take Calmer es own others p) h.0,
      OnePending-give_back cs (drop (length own) es) (Pointwise-drop Calmer es own others p) h.1,
    )

OnePending-update :
    (a : ClientAnswers) (block round : ℕ) (c : Client)
    → OnePending c
    → OnePending (update_client a block round c).1
unfolding update_client events_of
OnePending-update a block round (taker t) h = pending-Step (Step.updated a.to_taker block round t) h
OnePending-update a block round (maker n m) h = h
OnePending-update a block round (tumbler n t) h = h

OnePending-update_async :
    (a : ClientAnswers) (block round : ℕ) (c : Client)
    → OnePending c
    → OnePending (update_client_async a block round c).1
unfolding update_client_async events_of
OnePending-update_async a block round (taker t) h =
    pending-Step (Step.updated_async a.to_taker block round t) h
OnePending-update_async a block round (maker n m) h = h
OnePending-update_async a block round (tumbler n t) h = h

OnePending-mark :
    (out : Result ClientError ℤ) (name : String) (block : ℕ) (cs : List Client)
    → All OnePending cs
    → All OnePending (mark_timed_out out name block cs)
unfolding mark_timed_out mark_taker_round_failed
OnePending-mark (ok (pos _)) name block cs h = h
OnePending-mark (err _) name block cs h = h
OnePending-mark (ok (negsuc _)) name block cs h =
    OnePending-give_back cs _
      (Pointwise-mark_latest Calmer name "coinjoin attempt timed out" block (λ e s. s)
        (Calmer-mark name "coinjoin attempt timed out" block) (live_round_events cs))
      h

-- A predicate of the value, if there is one.
abbrev IfSome : {A : Type 0} → (A → Type 0) → Option A → Type 0
IfSome P none = Unit
IfSome P (some a) = P a

All-get_elem? :
    {A : Type 0} (P : A → Type 0) (xs : List A) (i : ℕ) → All P xs → IfSome P (get_elem? xs i)
All-get_elem? P [] i h = tt
All-get_elem? P (x ∷ xs) zero h = h.0
All-get_elem? P (x ∷ xs) (suc i) h = All-get_elem? P xs i h.1

OnePending-update_found :
    (a : ClientAnswers) (block round i : ℕ) (o : Option Client) (cs : List Client)
    → IfSome OnePending o
    → All OnePending cs
    → All OnePending (update_found a block round i o cs)
unfolding update_found
OnePending-update_found a block round i none cs o h = h
OnePending-update_found a block round i (some c) cs o h =
    let updated = OnePending-update a block round c o in
    OnePending-mark _ _ block _ (All-modify OnePending i _ cs (λ x p. updated) h)

OnePending-update_clients :
    (answers : ℕ → ClientAnswers) (block round i n : ℕ) (cs : List Client)
    → All OnePending cs
    → All OnePending (update_clients_from answers block round i n cs)
unfolding update_clients_from
OnePending-update_clients answers block round i zero cs h = h
OnePending-update_clients answers block round i (suc n) cs h =
    OnePending-update_clients answers block round (i + 1) n _ (
      OnePending-update_found (answers i) block round i (get_elem? cs i) cs
        (All-get_elem? OnePending cs i h) h)

OnePending-gather :
    (answers : ℕ → ClientAnswers) (block round i : ℕ) (cs : List Client)
    → All OnePending cs
    → All OnePending (map (λ r. r.1) (gather answers block round i cs))
unfolding gather
OnePending-gather answers block round i [] h = tt
OnePending-gather answers block round i (c ∷ cs) h = (
  OnePending-update_async (answers i) block round c h.0,
  OnePending-gather answers block round (i + 1) cs h.1,
)

OnePending-mark_all :
    (rs : List (Result ClientError ℤ × Client)) (block : ℕ) (cs : List Client)
    → All OnePending cs
    → All OnePending (mark_all rs block cs)
unfolding mark_all
OnePending-mark_all [] block cs h = h
OnePending-mark_all ((out, d) ∷ rs) block cs h =
    OnePending-mark_all rs block _ (OnePending-mark out (client_name d) block cs h)

OnePending-confirm :
    (block_at : ℕ → List Transaction) (tip : ℕ) (e : Engine)
    → AllTxids (new_blocks block_at e.scanned_height tip)
    → All OnePending e.clients
    → All OnePending (confirm_clients block_at tip e).1.clients
unfolding confirm_clients after_clients_scan
OnePending-confirm block_at tip e ids h =
    let live = live_round_events e.clients in
    let blocks = new_blocks block_at e.scanned_height tip in
    subst (λ r. All OnePending (after_clients_scan e r).1.clients)
      (sym (confirm_rounds-new_blocks live block_at tip e.scanned_height ids))
      (OnePending-give_back e.clients _
        (Calmer-on_started (settle (keep is_started live) blocks) live) h)

OnePending-unless_limited :
    (next : Engine → List Client) (out : Result RoundError (Unit {0}) × Engine)
    → ((e : Engine) → All OnePending e.clients → All OnePending (next e))
    → All OnePending out.1.clients
    → All OnePending (unless_limited next out).1.clients
unfolding unless_limited
OnePending-unless_limited next (err x, e) keeps h = h
OnePending-unless_limited next (ok _, e) keeps h =
    if_both (λ (r : Result RoundError (Unit {0}) × Engine). All OnePending r.1.clients)
      (round_limit_reached e) _ _ h (keeps e h)

-- Whatever jmwalletd answers and the blocks contain, a tick of either kind leaves no taker with two
-- attempts pending, if there was none before and the scanned transactions have ids.
pub update_coinjoins-OnePending :
    (block_at : ℕ → List Transaction) (tip : ℕ) (answers : ℕ → ClientAnswers) (e : Engine)
    → AllTxids (new_blocks block_at e.scanned_height tip)
    → All OnePending e.clients
    → All OnePending (update_coinjoins block_at tip answers e).1.clients
      × All OnePending (update_coinjoins_async block_at tip answers e).1.clients
unfolding update_coinjoins update_coinjoins_async
update_coinjoins-OnePending block_at tip answers e ids h =
    let confirmed = OnePending-confirm block_at tip e ids h in
    (
      OnePending-unless_limited _ (confirm_clients block_at tip e)
          (λ s.
            OnePending-update_clients answers s.current_block s.current_round 0 (length s.clients)
              s.clients)
          confirmed,
      OnePending-unless_limited _ (confirm_clients block_at tip e)
          (λ s k.
            OnePending-mark_all (gather answers s.current_block s.current_round 0 s.clients)
              s.current_block _
              (OnePending-gather answers s.current_block s.current_round 0 s.clients k))
          confirmed,
    )
