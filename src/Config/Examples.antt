-- ===== src/Config/Examples.antt =====
-- A Wasabi spend of 5000 satoshis, and one that sets both a value and all coins.
use coinjoin_emulator.Base.{◌≡◌, refl, true, false, Option, none, some, [], err}
use coinjoin_emulator.Base.Int.{pos}
use coinjoin_emulator.PostmixSpends.{PostmixSpendConfig}
use coinjoin_emulator.Config.{Json, SpendEntry, SpendError, parse_entry}
use coinjoin_emulator.Config.Spends.{IsValid, parse_entry-IsValid}

abbrev entry : Option Json → SpendEntry
entry all = record {
  value = some (Json.integer (pos 5000));
  all = all;
  delay_blocks = none;
  delay_rounds = some (Json.integer (pos 2));
  min_anon_score = none;
  coin_selection = none;
  unknown = [];
}

abbrev parsed : PostmixSpendConfig
parsed = record {
  config_value = some 5000;
  config_all = false;
  config_delay_blocks = none;
  config_delay_rounds = some 2;
  config_min_anon_score = none;
  config_coin_selection = "anon_score";
}

both_refused : parse_entry false (entry (some (Json.boolean true))) ≡ err SpendError.not_exactly_one
unfolding parse_entry
both_refused = refl

parse_entry-IsValid_example : IsValid false (entry none) parsed
unfolding parse_entry
parse_entry-IsValid_example = parse_entry-IsValid false (entry none) parsed refl
