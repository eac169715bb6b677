-- ===== src/Runs/Examples.antt =====
-- Runs over a chain that is its height, limited to two blocks.
use coinjoin_emulator.Base.{ℕ, ◌+◌, ◌≡◌, refl, true, some, [], ◌∷◌, ok, arith}
use coinjoin_emulator.Schedule.{WasabiRun}
use coinjoin_emulator.Runs.{RunState, WasabiCalls, run_wasabi, JoinMarketCalls}
use coinjoin_emulator.Runs.WasabiEnds.{Rises}
use coinjoin_emulator.Runs.Ends.{Grows}

abbrev counters : WasabiRun
counters = record { round_limit = 0; block_limit = 2; current_block = 0; current_round = 0 }

abbrev wasabi_calls : WasabiCalls ℕ
wasabi_calls = record {
  get_current_round = λ w. (some 0, w);
  get_block_count = λ w. (some w, w);
  pay_due_invoices = λ r w. (ok tt, w);
  pay_postmix_spends = λ r w. (ok tt, w);
  chunks = λ cs. cs ∷ [];
  start_coinjoin = λ c w. (ok tt, w);
  stop_coinjoin = λ c w. (ok tt, w);
  sleep = λ w. w + 1;
  mine_block = λ n w. (ok true, w + n);
}

abbrev joinmarket_calls : JoinMarketCalls ℕ
joinmarket_calls = record {
  block_count = λ w. (some w, w);
  invoice_payments = λ b r w. (ok tt, w);
  postmix_spends = λ b r w. (ok tt, w);
  coinjoins = λ b r w. (r, w);
  pause = λ w. w + 1;
  mine = λ n w. (ok true, w + n);
}

abbrev joinmarket_calls-Grows : Grows joinmarket_calls
joinmarket_calls-Grows = record {
  height = λ w. w;
  answers = λ w. refl;
  counted = λ w. omega arith;
  invoiced = λ b r w. omega arith;
  spent = λ b r w. omega arith;
  joined = λ b r w. omega arith;
  paused = λ w. omega arith;
}

-- The chain at 10: three turns, and three blocks mined.
abbrev ended : RunState ℕ
ended = (record counters { current_block = 2 }, 16)

wasabi_run : run_wasabi wasabi_calls [] 5 (counters, 10) ≡ some (ok tt, ended)
unfolding run_wasabi
wasabi_run = refl

abbrev wasabi_calls-Rises : Rises wasabi_calls (λ w. w)
wasabi_calls-Rises = record {
  counted = λ w. (omega arith, omega arith);
  asked = λ w. omega arith;
  invoiced = λ r w. omega arith;
  spent = λ r w. omega arith;
  started = λ c w. omega arith;
  stopped = λ c w. omega arith;
  slept = λ w. omega arith;
}
