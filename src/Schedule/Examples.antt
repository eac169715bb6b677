-- ===== src/Schedule/Examples.antt =====
-- A wallet that starts at block 2 and stops at round 5.
use coinjoin_emulator.Base.{◌≡◌, refl, not, ◌&&◌, [], ◌∷◌, ◌==◌, any}
use coinjoin_emulator.Schedule.{
  WalletSchedule, outside_schedule, Pacing, WasabiRun, run_limit_reached, WasabiSchedule,
  start_condition, split_clients,
}
use coinjoin_emulator.Schedule.Agreement.{start_condition-eq}

abbrev times : WalletSchedule
times = record { start_block = 2; start_round = 0; stop_block = 0; stop_round = 5 }

abbrev run : WasabiRun
run = record { round_limit = 10; block_limit = 0; current_block = 7; current_round = 3 }

abbrev early : WasabiSchedule
early = record { name = "wasabi-client-000"; times = times; skip_rounds = [] }

abbrev skipping : WasabiSchedule
skipping = record { name = "wasabi-client-001"; times = times; skip_rounds = 3 ∷ [] }

abbrev pacing : Pacing
pacing = record {
  schedule = times;
  next_coinjoin_allowed = 2;
  max_coinjoins = 2;
  completed_coinjoins = 1;
}

split_runs : split_clients run (early ∷ skipping ∷ []) ≡ (early ∷ [], skipping ∷ [])
unfolding split_clients
split_runs = refl

start_condition-eq_example : start_condition run skipping ≡ (
    not (run_limit_reached run)
    && (not (outside_schedule times 7 3) && not (any (λ s. s == 3) (3 ∷ []))))
start_condition-eq_example = start_condition-eq run skipping
