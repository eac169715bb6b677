-- ===== src/JoinMarket/Engine.antt =====
-- The coinjoin updates of manager/engine/joinmarket_engine.py: one tick over all clients. Their round
-- events are the engine's live events, so what a scan or a mark writes is written to the clients.
-- jmwalletd's answers to each client, and the chain, are parameters.
pub mod Calmer
pub mod Pending
pub mod Counter
pub mod Limit
mod Examples
use coinjoin_emulator.Base.{
  ℕ, zero, suc, ◌+◌, Bool, true, false, ◌&&◌, String, Option, none, some, List, [], ◌∷◌, ◌++◌, map,
  take, drop, length, modify, get_elem?, ltb, leb, if◌then◌else◌, Result, ok, err,
}
use coinjoin_emulator.Base.Int.{ℤ, pos, negsuc}
use coinjoin_emulator.Rounds.{RoundEvent}
use coinjoin_emulator.Rounds.Reconcile.{Transaction, RoundError}
use coinjoin_emulator.Rounds.Confirm.{
  confirm_rounds_in_blocks, count_confirmed_rounds, mark_latest_started_round_failed,
}
use coinjoin_emulator.JoinMarket.{ClientError}
use coinjoin_emulator.JoinMarket.Taker.{Taker, Answers, update, update_async}
use coinjoin_emulator.JoinMarket.Maker.{Maker, MakerAnswers, update_maker, update_maker_async}
use coinjoin_emulator.JoinMarket.Tumbler.{
  Tumbler, TumblerAnswers, update_tumbler, update_tumbler_async,
}

-- The clients of an engine; makers and tumblers are named here.
pub data Client : Type 0 where
  taker : Taker → Client
  maker : String → Maker → Client
  tumbler : String → Tumbler → Client

-- What jmwalletd answers to a client during one update, by its kind.
pub record ClientAnswers : Type 0 where
  pub to_taker : Answers
  pub to_maker : MakerAnswers
  pub to_tumbler : TumblerAnswers

unfoldable pub client_name : Client → String
client_name (taker t) = t.name
client_name (maker n m) = n
client_name (tumbler n t) = n

-- `getattr(client, "round_events", [])`: only takers record rounds.
unfoldable pub events_of : Client → List RoundEvent
events_of (taker t) = t.round_events
events_of (maker n m) = []
events_of (tumbler n t) = []

unfoldable pub with_events : List RoundEvent → Client → Client
with_events es (taker t) = taker (record t { round_events = es })
with_events es (maker n m) = maker n m
with_events es (tumbler n t) = tumbler n t

-- `live_round_events`
unfoldable pub live_round_events : List Client → List RoundEvent
unfolding events_of
live_round_events [] = []
live_round_events (c ∷ cs) = events_of c ++ live_round_events cs

-- The clients with the live events as they were written to, each with its own.
unfoldable pub give_back : List RoundEvent → List Client → List Client
unfolding events_of with_events
give_back es [] = []
give_back es (c ∷ cs) =
    with_events (take (length (events_of c)) es) c ∷ give_back (drop (length (events_of c)) es) cs

abbrev as_delta : Result ClientError ℕ → Result ClientError ℤ
as_delta (ok n) = ok (pos n)
as_delta (err e) = err e

-- `client.update`
unfoldable pub update_client : ClientAnswers → ℕ → ℕ → Client → Result ClientError ℤ × Client
unfolding update update_maker update_tumbler
update_client a block round (taker t) =
    let (out, u) = update a.to_taker block round t in (out, taker u)
update_client a block round (maker n m) =
    let (out, u) = update_maker a.to_maker block round m in (as_delta out, maker n u)
update_client a block round (tumbler n t) =
    let (out, u) = update_tumbler a.to_tumbler block round t in (as_delta out, tumbler n u)

-- `_update_client_async`
unfoldable pub update_client_async : ClientAnswers → ℕ → ℕ → Client → Result ClientError ℤ × Client
unfolding update_async update_maker_async update_tumbler_async
update_client_async a block round (taker t) =
    let (out, u) = update_async a.to_taker block round t in (out, taker u)
update_client_async a block round (maker n m) =
    let (out, u) = update_maker_async a.to_maker block round m in (as_delta out, maker n u)
update_client_async a block round (tumbler n t) =
    let (out, u) = update_tumbler_async a.to_tumbler block round t in (as_delta out, tumbler n u)

-- `_mark_taker_round_failed`, over the live events of all clients.
unfoldable pub mark_taker_round_failed : String → ℕ → List Client → List Client
unfolding live_round_events give_back mark_latest_started_round_failed
mark_taker_round_failed name block cs =
    give_back
      (mark_latest_started_round_failed (live_round_events cs) name "coinjoin attempt timed out"
        block)
      cs

-- A negative delta is an attempt that timed out; an error is only reported.
unfoldable pub mark_timed_out : Result ClientError ℤ → String → ℕ → List Client → List Client
unfolding mark_taker_round_failed
mark_timed_out (ok (negsuc _)) name block cs = mark_taker_round_failed name block cs
mark_timed_out (ok (pos _)) name block cs = cs
mark_timed_out (err _) name block cs = cs

unfoldable pub update_found : ClientAnswers → ℕ → ℕ → ℕ → Option Client → List Client → List Client
unfolding update_client mark_timed_out client_name
update_found a block round i none cs = cs
update_found a block round i (some c) cs =
    let (out, d) = update_client a block round c in
    mark_timed_out out (client_name d) block (modify i (λ _. d) cs)

-- The loop of `update_coinjoins_joinmarket`, from an index on.
unfoldable pub update_clients_from : (ℕ → ClientAnswers) → ℕ → ℕ → ℕ → ℕ → List Client → List Client
unfolding update_found
update_clients_from answers block round i zero cs = cs
update_clients_from answers block round i (suc n) cs =
    update_clients_from answers block round (i + 1) n
      (update_found (answers i) block round i (get_elem? cs i) cs)

-- The updates of all clients in the asynchronous tick, with what each returned.
unfoldable pub gather :
    (ℕ → ClientAnswers) → ℕ → ℕ → ℕ → List Client → List (Result ClientError ℤ × Client)
unfolding update_client_async
gather answers block round i [] = []
gather answers block round i (c ∷ cs) =
    update_client_async (answers i) block round c ∷ gather answers block round (i + 1) cs

-- Its marks come after all updates.
unfoldable pub mark_all : List (Result ClientError ℤ × Client) → ℕ → List Client → List Client
unfolding mark_timed_out client_name
mark_all [] block cs = cs
mark_all ((out, d) ∷ rs) block cs = mark_all rs block (mark_timed_out out (client_name d) block cs)

pub record Engine : Type 0 where
  pub clients : List Client
  pub scanned_height : ℤ
  pub current_round : ℕ
  pub current_block : ℕ
  pub round_limit : ℕ

-- `_round_limit_reached`
unfoldable pub round_limit_reached : Engine → Bool
round_limit_reached e = ltb 0 e.round_limit && leb e.round_limit e.current_round

-- `confirm_started_rounds`, with the clients: an error leaves the height and the counter.
unfoldable pub after_clients_scan :
    Engine → Result RoundError ℤ × List RoundEvent → Result RoundError (Unit {0}) × Engine
unfolding give_back count_confirmed_rounds
after_clients_scan e (ok height, es) = (
  ok tt,
  record e {
    clients = give_back es e.clients;
    scanned_height = height;
    current_round = count_confirmed_rounds es;
  },
)
after_clients_scan e (err x, es) = (err x, record e { clients = give_back es e.clients })

unfoldable pub confirm_clients :
    (ℕ → List Transaction) → ℕ → Engine → Result RoundError (Unit {0}) × Engine
unfolding after_clients_scan live_round_events confirm_rounds_in_blocks
confirm_clients block_at tip e =
    after_clients_scan e
      (confirm_rounds_in_blocks (live_round_events e.clients) block_at tip e.scanned_height)

-- The updates after the scan: none once the round limit is reached.
unfoldable pub unless_limited :
    (Engine → List Client)
    → Result RoundError (Unit {0}) × Engine
    → Result RoundError (Unit {0}) × Engine
unfolding round_limit_reached
unless_limited next (err x, e) = (err x, e)
unless_limited next (ok _, e) =
    if round_limit_reached e then (ok tt, e) else (ok tt, record e { clients = next e })

-- `update_coinjoins_joinmarket`, less the orderbook watcher.
unfoldable pub update_coinjoins :
    (ℕ → List Transaction)
    → ℕ
    → (ℕ → ClientAnswers)
    → Engine
    → Result RoundError (Unit {0}) × Engine
unfolding unless_limited confirm_clients update_clients_from
update_coinjoins block_at tip answers e =
    unless_limited
      (λ s.
        update_clients_from answers s.current_block s.current_round 0 (length s.clients) s.clients)
      (confirm_clients block_at tip e)

-- `update_coinjoins_joinmarket_async`: the updates of the clients, then the marks.
unfoldable pub update_coinjoins_async :
    (ℕ → List Transaction)
    → ℕ
    → (ℕ → ClientAnswers)
    → Engine
    → Result RoundError (Unit {0}) × Engine
unfolding unless_limited confirm_clients gather mark_all
update_coinjoins_async block_at tip answers e =
    unless_limited
      (λ s.
        let results = gather answers s.current_block s.current_round 0 s.clients in
        mark_all results s.current_block (map (λ r. r.1) results))
      (confirm_clients block_at tip e)
