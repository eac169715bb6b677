-- ===== src/Config/Scenario/Examples.antt =====
-- A scenario of one taker, limited to two rounds.
use coinjoin_emulator.Base.{◌≡◌, ◌↔◌, refl, Bool, true, String, none, some, [], ◌∷◌, ok, str_eq}
use coinjoin_emulator.Config.Wallets.Examples.{entry, wallet}
use coinjoin_emulator.Config.Scenario.{
  ScenarioEntry, ScenarioConfig, from_json_config, validate_joinmarket, validate_for_engine,
}
use coinjoin_emulator.Config.Scenario.Validated.{IsRunnable, validate_joinmarket_iff}

abbrev scenario_entry : ScenarioEntry String
scenario_entry = record {
  description = none;
  category = none;
  wallets = entry ∷ [];
  name = some "two rounds";
  rounds = some 2;
  blocks = some 0;
  default_version = some "joinmarket";
}

abbrev scenario : ScenarioConfig String
scenario = record {
  scenario_name = "two rounds";
  scenario_rounds = 2;
  scenario_blocks = 0;
  scenario_version = "joinmarket";
  scenario_wallets = wallet ∷ [];
  scenario_description = none;
  scenario_category = none;
}

abbrev is_blank : String → Bool
is_blank s = str_eq s ""

abbrev truthy : String → Bool
truthy s = true

scenario_run : from_json_config is_blank scenario_entry ≡ ok scenario
unfolding from_json_config
scenario_run = refl

validated_run : validate_for_engine truthy "joinmarket" scenario ≡ ok tt
unfolding validate_for_engine
validated_run = refl

validate_joinmarket_iff_example :
    (validate_joinmarket truthy scenario ≡ ok tt) ↔ IsRunnable truthy scenario
validate_joinmarket_iff_example = validate_joinmarket_iff truthy scenario
