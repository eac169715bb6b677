-- ===== src/Startup.antt =====
-- The startup of the wallets in manager/engine/engine_base.py: `_start_classified_wallets` and
-- `start_clients`. Starting, probing and stopping one client are parameters over a world; calls that
-- Python makes in parallel are made in order, and the pauses are left out.
pub mod Slots
pub mod Complete
mod Examples
use coinjoin_emulator.Base.{
  ℕ, zero, suc, ◌+◌, ◌-◌, Bool, true, false, not, Option, none, some, List, [], ◌∷◌, ◌++◌, map,
  keep, take, drop, length, modify, get_elem?, if◌then◌else◌, Result, ok, err, ◌==◌, is_some,
  count_if,
}

-- What a client is started from, with whether it has a fidelity bond.
pub record StartupWallet (V : Type 0) : Type 0 where
  pub config : V
  pub has_fidelity_bond : Bool

-- `start_client`, `_client_is_healthy` and `stop_client`.
pub record ClientPool (V C W : Type 0) : Type 0 where
  pub start_client : ℕ → StartupWallet V → W → Option C × W
  pub is_healthy : C → W → Bool
  pub stop_client : ℕ → W → W

abbrev pub fidelity_batch_size : ℕ
fidelity_batch_size = 5

abbrev pub add_started : {C : Type 0} → C → Result ℕ (List C) → Result ℕ (List C)
add_started c (ok cs) = ok (c ∷ cs)
add_started c (err n) = err n

-- `self.clients.extend(new_clients)`, which an error leaves out.
abbrev pub extend_clients : {C : Type 0} → List C → Result ℕ (List C) → Result ℕ (List C)
extend_clients old (ok new) = ok (old ++ new)
extend_clients old (err n) = err n

module _ {V C W : Type 0} (pool : ClientPool V C W) where
  -- `pool.starmap(self.start_client, ...)`, with the index of each result.
  unfoldable pub start_each : List (ℕ × StartupWallet V) → W → List (ℕ × Option C) × W
  start_each [] w = ([], w)
  start_each ((i, v) ∷ vs) w =
      let (client, w1) = pool.start_client i v w in
      let (clients, w2) = start_each vs w1 in ((i, client) ∷ clients, w2)

  -- The wallets with bonds, a batch at a time, on fuel.
  unfoldable pub start_batches : ℕ → List (ℕ × StartupWallet V) → W → List (ℕ × Option C) × W
  unfolding start_each
  start_batches zero vs w = ([], w)
  start_batches (suc fuel) [] w = ([], w)
  start_batches (suc fuel) (v ∷ vs) w =
      let (first, w1) = start_each (take fidelity_batch_size (v ∷ vs)) w in
      let (rest, w2) = start_batches fuel (drop fidelity_batch_size (v ∷ vs)) w1 in
      (first ++ rest, w2)

  -- `_start_classified_wallets`: the wallets without a bond, and then those with one.
  unfoldable pub start_classified_wallets : List (ℕ × StartupWallet V) → W → List (ℕ × Option C) × W
  unfolding start_batches
  start_classified_wallets vs w =
      let bonded = keep (λ v. v.1.has_fidelity_bond) vs in
      let (regular, w1) = start_each (keep (λ v. not v.1.has_fidelity_bond) vs) w in
      let (bonds, w2) = start_batches (length bonded) bonded w1 in (regular ++ bonds, w2)

  -- `new_clients[idx - len(self.clients)] = client`, for all results.
  unfoldable pub put_clients : ℕ → List (ℕ × Option C) → List (Option C) → List (Option C)
  put_clients base [] cs = cs
  put_clients base ((i, c) ∷ rs) cs = put_clients base rs (modify (i - base) (λ old. c) cs)

  unfoldable pub is_failed : Option C → W → Bool
  is_failed none w = true
  is_failed (some c) w = not (pool.is_healthy c w)

  -- The indices and wallets to start again.
  unfoldable pub failed_from :
      ℕ → List (Option C) → List (StartupWallet V) → W → List (ℕ × StartupWallet V)
  unfolding is_failed
  failed_from i [] vs w = []
  failed_from i (c ∷ cs) [] w = []
  failed_from i (c ∷ cs) (v ∷ vs) w =
      let rest = failed_from (i + 1) cs vs w in if is_failed c w then (i, v) ∷ rest else rest

  unfoldable pub stop_each : List (ℕ × StartupWallet V) → W → W
  stop_each [] w = w
  stop_each ((i, v) ∷ vs) w = stop_each vs (pool.stop_client i w)

  -- One retry of those that failed.
  unfoldable pub retry : ℕ → List (ℕ × StartupWallet V) → List (Option C) → W → List (Option C) × W
  unfolding stop_each start_classified_wallets put_clients
  retry base failed cs w =
      let (results, w1) = start_classified_wallets failed (stop_each failed w) in
      (put_clients base results cs, w1)

  -- Nothing failed: the loop is left.
  unfoldable pub unless_none :
      List (ℕ × StartupWallet V) → List (Option C) × W → List (Option C) × W → List (Option C) × W
  unless_none [] stay next = stay
  unless_none (_ ∷ _) stay next = next

  -- The retry loop, which ends when no client is failed.
  unfoldable pub retry_loop :
      ℕ → ℕ → List (StartupWallet V) → List (Option C) → W → List (Option C) × W
  unfolding failed_from retry unless_none
  retry_loop zero base vs cs w = (cs, w)
  retry_loop (suc n) base vs cs w =
      let failed = failed_from base cs vs w in
      let tried = retry base failed cs w in
      let rest = retry_loop n base vs tried.0 tried.1 in unless_none failed (cs, w) rest

  -- The clients of all wallets, or the number of those that are missing.
  unfoldable pub all_started : List (Option C) → Result ℕ (List C)
  all_started [] = ok []
  all_started (none ∷ cs) = err (count_if (λ c. not (is_some c)) (none ∷ cs))
  all_started (some c ∷ cs) = add_started c (all_started cs)

  abbrev number_wallets : ℕ → List (StartupWallet V) → List (ℕ × StartupWallet V)
  number_wallets i [] = []
  number_wallets i (v ∷ vs) = (i, v) ∷ number_wallets (i + 1) vs

  abbrev nothing_yet : List (StartupWallet V) → List (Option C)
  nothing_yet = map (λ v. none)

  -- `start_clients`: the clients with the new ones, unless one is still missing after three retries.
  unfoldable pub start_clients : List C → List (StartupWallet V) → W → Result ℕ (List C) × W
  unfolding start_classified_wallets put_clients retry_loop all_started
  start_clients clients vs w =
      let base = length clients in
      let (results, w1) = start_classified_wallets (number_wallets base vs) w in
      let (cs, w2) = retry_loop 3 base vs (put_clients base results (nothing_yet vs)) w1 in
      (extend_clients clients (all_started cs), w2)

-- What `validate_clients` raises: the expected and the actual number, or the clients that do not answer.
pub data ValidationError (C : Type 0) : Type 0 where
  wrong_number : (expected actual : ℕ) → ValidationError C
  unhealthy : List C → ValidationError C

abbrev refuse_unhealthy : {C : Type 0} → List C → Result (ValidationError C) (Unit {0})
refuse_unhealthy [] = ok tt
refuse_unhealthy (c ∷ cs) = err (unhealthy (c ∷ cs))

-- `validate_clients`, by a probe of each client.
unfoldable pub validate_clients :
    {C : Type 0} → ℕ → (C → Bool) → List C → Result (ValidationError C) (Unit {0})
validate_clients expected answers clients =
    if not (length clients == expected)
    then err (wrong_number expected (length clients))
    else refuse_unhealthy (keep (λ c. not (answers c)) clients)
