-- ===== src/JoinMarket/Engine/Examples.antt =====
-- An engine with one taker and one maker, at block 3.
use coinjoin_emulator.Base.{ℕ, ◌≡◌, refl, true, false, none, List, [], ◌∷◌, All, length, arith}
use coinjoin_emulator.Base.Int.{negsuc}
use coinjoin_emulator.Rounds.{Status}
use coinjoin_emulator.Rounds.Examples.{event}
use coinjoin_emulator.Rounds.Reconcile.{Transaction}
use coinjoin_emulator.Rounds.Confirm.{new_blocks, is_confirmed}
use coinjoin_emulator.JoinMarket.Examples.{taker, maker, answers, maker_answers}
use coinjoin_emulator.JoinMarket.Engine.{
  Client, ClientAnswers, Engine, live_round_events, events_of, round_limit_reached,
  update_coinjoins, update_coinjoins_async,
}
use coinjoin_emulator.JoinMarket.Engine.Pending.{OnePending, update_coinjoins-OnePending}
use coinjoin_emulator.JoinMarket.Engine.Limit.{
  IsCounted, update_coinjoins-IsCounted, update_coinjoins_limited,
}

abbrev client_answers : ℕ → ClientAnswers
client_answers i = record {
  to_taker = answers false true;
  to_maker = maker_answers;
  to_tumbler = record { reported = none; run_schedule = none; get_schedule = false };
}

abbrev empty_block : ℕ → List Transaction
empty_block height = []

abbrev engine : Engine
engine = record {
  clients = Client.taker taker ∷ Client.maker "jcs-002" maker ∷ [];
  scanned_height = negsuc 0;
  current_round = 0;
  current_block = 3;
  round_limit = 2;
}

-- The taker's attempt is recorded.
tick_run :
    length (live_round_events (update_coinjoins empty_block 1 client_answers engine).1.clients) ≡ 1
unfolding update_coinjoins live_round_events
tick_run = refl

update_coinjoins-OnePending_example :
    All OnePending (update_coinjoins empty_block 1 client_answers engine).1.clients
    × All OnePending (update_coinjoins_async empty_block 1 client_answers engine).1.clients
unfolding new_blocks events_of
update_coinjoins-OnePending_example =
    update_coinjoins-OnePending empty_block 1 client_answers engine (tt, (tt, tt))
      (omega arith, (omega arith, tt))

update_coinjoins-IsCounted_example :
    IsCounted (update_coinjoins empty_block 1 client_answers engine).1
unfolding update_coinjoins
update_coinjoins-IsCounted_example =
    update_coinjoins-IsCounted empty_block 1 client_answers engine refl

-- The engine with a round limit of one, once a round of its taker is confirmed.
abbrev limited : Engine
limited = record engine {
  clients =
      Client.taker (record taker {
        round_events = record (event 1 "bcrt1a") { status = Status.confirmed } ∷ [];
      })
      ∷ [];
  current_round = 1;
  round_limit = 1;
}

update_coinjoins_limited_example :
    (round_limit_reached (update_coinjoins empty_block 1 client_answers limited).1 ≡ true)
    × (length (live_round_events (update_coinjoins empty_block 1 client_answers limited).1.clients)
        ≡ 1)
unfolding new_blocks live_round_events is_confirmed round_limit_reached
update_coinjoins_limited_example =
    update_coinjoins_limited empty_block 1 client_answers limited (tt, (tt, tt)) refl refl
