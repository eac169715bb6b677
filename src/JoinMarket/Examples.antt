-- ===== src/JoinMarket/Examples.antt =====
-- A taker with one offer, updated at block 3, and a maker that starts at block 2.
use coinjoin_emulator.Base.{◌≡◌, refl, ◌≤◌, ◌↔◌, Bool, true, false, some, List, [], ◌∷◌, ok}
use coinjoin_emulator.Base.Int.{pos, negsuc}
use coinjoin_emulator.Schedule.{Pacing}
use coinjoin_emulator.JoinMarket.{Offer, or_false}
use coinjoin_emulator.JoinMarket.Taker.{Taker, Answers, refreshed, update, update_async}
use coinjoin_emulator.JoinMarket.Taker.Attempts.{update_async-update, Tick}
use coinjoin_emulator.JoinMarket.Taker.Starts.{can_start, update_starts_iff}
use coinjoin_emulator.JoinMarket.Taker.Pending.{pending, Step, Reachable, pending-Reachable}
use coinjoin_emulator.JoinMarket.Maker.{Maker, MakerAnswers}

abbrev pacing : Pacing
pacing = record {
  schedule = record { start_block = 2; start_round = 0; stop_block = 10; stop_round = 0 };
  next_coinjoin_allowed = 2;
  max_coinjoins = 1;
  completed_coinjoins = 0;
}

abbrev offer : Offer
offer = record { offer_amount = some 5000; offer_counterparties = some 2; offer_mixdepth = some 0 }

abbrev pub taker : Taker
taker = record {
  name = "jcs-001";
  offers = offer ∷ [];
  pacing = pacing;
  time_between_rounds = 3;
  coinjoin_timeout_blocks = 8;
  coinjoin_in_process = false;
  coinjoin_start = 0;
  round_events = [];
}

abbrev pub answers : Bool → Bool → Answers
answers b acknowledged = record {
  session = some b;
  address = some "bcrt1a";
  acknowledged = acknowledged;
}

abbrev started : Taker
started = (update (answers false true) 3 0 taker).1

-- The attempt is started at block 3, and timed out after block 11.
timeout_runs : (update (answers true true) 12 0 started).0 ≡ ok (negsuc 0)
unfolding update
timeout_runs = refl

-- An asynchronous update at block 12, outside the schedule, leaves it running.
left_running : update_async (answers true true) 12 0 started ≡ (ok (pos 0), started)
unfolding update update_async or_false
left_running = refl

update_starts_iff_example : ((update (answers false true) 3 0 taker).0 ≡ ok (pos 1)) ↔ (
    (some false ≡ some false) × (can_start (answers false true) 3 0 (refreshed false taker) ≡ true))
update_starts_iff_example = update_starts_iff (answers false true) 3 0 taker

update_async-update_example :
    update_async (answers false true) 3 0 taker ≡ update (answers false true) 3 0 taker
update_async-update_example = update_async-update (answers false true) false 3 0 taker refl refl

pending-Reachable_example : pending started ≤ 1
pending-Reachable_example =
    pending-Reachable {t = taker} {u = started} refl
      (Reachable.then_by Reachable.initially (Step.updated (answers false true) 3 0 taker))

abbrev pub maker : Maker
maker = record { maker_offers = offer ∷ []; maker_pacing = pacing; maker_running = false }

abbrev pub maker_answers : MakerAnswers
maker_answers = record { running = some false; stops = true; starts = true }

-- Blocks 12 and 60, when the coinjoin has long timed out.
abbrev late_ticks : List Tick
late_ticks = (answers true true, (12, 0)) ∷ (answers true true, (60, 0)) ∷ []
