-- ===== src/Startup/Examples.antt =====
-- A client that starts only at the second attempt; the world counts the starts.
use coinjoin_emulator.Base.{
  ℕ, zero, suc, ◌+◌, ◌≡◌, refl, true, false, Option, none, some, List, [], ◌∷◌, ◌++◌, ok,
}
use coinjoin_emulator.Startup.{StartupWallet, ClientPool, start_clients}
use coinjoin_emulator.Startup.Complete.{StartedAs, start_clients_complete}

abbrev nth_start : ℕ → ℕ → Option ℕ
nth_start i zero = none
nth_start i (suc n) = some i

abbrev pool : ClientPool (Unit {0}) ℕ ℕ
pool = record {
  start_client = λ i v w. (nth_start i w, w + 1);
  is_healthy = λ c w. true;
  stop_client = λ i w. w;
}

abbrev wallets : List (StartupWallet (Unit {0}))
wallets =
    record { config = tt; has_fidelity_bond = false }
    ∷ record { config = tt; has_fidelity_bond = true }
    ∷ []

start_runs : start_clients pool [] wallets 0 ≡ (ok (0 ∷ 1 ∷ []), 3)
unfolding start_clients
start_runs = refl

start_clients_complete_example :
    (new : List ℕ) × (0 ∷ 1 ∷ [] ≡ [] ++ new) × StartedAs pool 0 wallets new
unfolding start_clients
start_clients_complete_example = start_clients_complete pool [] (0 ∷ 1 ∷ []) wallets 0 refl
