-- ===== src/Schedule.antt =====
-- When a wallet may mix: `outside_schedule` and `is_paused` of
-- manager/wasabi_clients/joinmarket_clients/joinmarket_client_base.py, and `_run_limit_reached` and
-- `update_coinjoins` of manager/engine/wasabi_engine.py.
pub mod Agreement
mod Examples
use coinjoin_emulator.Base.{
  ℕ, String, Bool, true, false, ◌&&◌, ◌||◌, List, [], ◌∷◌, ltb, leb, ◌==◌, if◌then◌else◌, any,
}

-- `delay` and `stop`, each in blocks and in rounds; a stop of 0 means none.
pub record WalletSchedule : Type 0 where
  pub start_block : ℕ
  pub start_round : ℕ
  pub stop_block : ℕ
  pub stop_round : ℕ

unfoldable pub outside_schedule : WalletSchedule → ℕ → ℕ → Bool
outside_schedule s block round =
    ltb block s.start_block
    || (ltb round s.start_round
        || ((ltb 0 s.stop_block && leb s.stop_block block)
            || (ltb 0 s.stop_round && leb s.stop_round round)))

-- What `is_paused` reads of a JoinMarket client.
pub record Pacing : Type 0 where
  pub schedule : WalletSchedule
  pub next_coinjoin_allowed : ℕ
  pub max_coinjoins : ℕ
  pub completed_coinjoins : ℕ

unfoldable pub is_paused : Pacing → ℕ → ℕ → Bool
unfolding outside_schedule
is_paused p block round =
    if outside_schedule p.schedule block round
    then true
    else if ltb block p.next_coinjoin_allowed
    then true
    else if ltb 0 p.max_coinjoins && leb p.max_coinjoins p.completed_coinjoins
    then true
    else false

-- The scenario's limits and the counters of the Wasabi engine.
pub record WasabiRun : Type 0 where
  pub round_limit : ℕ
  pub block_limit : ℕ
  pub current_block : ℕ
  pub current_round : ℕ

-- `_run_limit_reached`
unfoldable pub run_limit_reached : WasabiRun → Bool
run_limit_reached r =
    (ltb 0 r.round_limit && leb r.round_limit r.current_round)
    || (ltb 0 r.block_limit && leb r.block_limit r.current_block)

-- What the engine reads of a Wasabi client.
pub record WasabiSchedule : Type 0 where
  pub name : String
  pub times : WalletSchedule
  pub skip_rounds : List ℕ

-- `start_condition` of `update_coinjoins`
unfoldable pub start_condition : WasabiRun → WasabiSchedule → Bool
unfolding run_limit_reached
start_condition r c =
    if run_limit_reached r
    then false
    else if ltb 0 c.times.stop_block && leb c.times.stop_block r.current_block
    then false
    else if ltb 0 c.times.stop_round && leb c.times.stop_round r.current_round
    then false
    else if ltb r.current_block c.times.start_block
    then false
    else if ltb r.current_round c.times.start_round
    then false
    else if any (λ s. s == r.current_round) c.skip_rounds
    then false
    else true

-- Adds a client to the list it belongs to.
abbrev sorted_into :
    Bool
    → WasabiSchedule
    → List WasabiSchedule × List WasabiSchedule
    → List WasabiSchedule × List WasabiSchedule
sorted_into true c (start, stop) = (c ∷ start, stop)
sorted_into false c (start, stop) = (start, c ∷ stop)

-- The lists `start` and `stop` of `update_coinjoins`, whose clients are started and stopped.
unfoldable pub split_clients :
    WasabiRun → List WasabiSchedule → List WasabiSchedule × List WasabiSchedule
unfolding start_condition
split_clients r [] = ([], [])
split_clients r (c ∷ cs) = sorted_into (start_condition r c) c (split_clients r cs)
