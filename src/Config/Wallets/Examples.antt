-- ===== src/Config/Wallets/Examples.antt =====
-- A taker's wallet with one fund and one spend, read, written and read again.
use coinjoin_emulator.Base.{◌≡◌, refl, false, String, none, some, [], ◌∷◌, ok}
use coinjoin_emulator.Base.Int.{pos}
use coinjoin_emulator.PostmixSpends.{PostmixSpendConfig}
use coinjoin_emulator.Config.{Json, SpendEntry}
use coinjoin_emulator.Config.Wallets.{
  FundEntry, FundOf, SpendsEntry, WasabiEntry, WalletEntry, JoinMarketRole, WalletConfig,
  parse_wallet, wallet_entry,
}
use coinjoin_emulator.Config.Wallets.RoundTrip.{parse_wallet-wallet_entry}

abbrev spend : SpendEntry
spend = record {
  value = some (Json.integer (pos 700));
  all = none;
  delay_blocks = some (Json.integer (pos 3));
  delay_rounds = none;
  min_anon_score = none;
  coin_selection = none;
  unknown = [];
}

abbrev no_wasabi : WasabiEntry String
no_wasabi = record {
  anon_score_target = none;
  redcoin_isolation = none;
  skip_rounds = none;
  wasabi_spends = none;
}

abbrev pub entry : WalletEntry String
entry = record {
  funds = FundEntry.number 5000 ∷ FundEntry.object (some (some "200")) (some "2") none ∷ [];
  delay_blocks = some "1";
  delay_rounds = none;
  stop_blocks = none;
  stop_rounds = none;
  version = none;
  flat_wasabi = false;
  flat_joinmarket = false;
  wasabi = no_wasabi;
  joinmarket = record {
    role = some "taker";
    offers = none;
    tumbler_options = none;
    time_between_rounds = none;
    coinjoin_timeout_blocks = some (Json.integer (pos 8));
    fidelity_bond = none;
    max_coinjoins = none;
    joinmarket_spends = some (SpendsEntry.list (some spend ∷ []));
  };
}

abbrev read_spend : PostmixSpendConfig
read_spend = record {
  config_value = some 700;
  config_all = false;
  config_delay_blocks = some 3;
  config_delay_rounds = none;
  config_min_anon_score = none;
  config_coin_selection = "amount";
}

abbrev pub wallet : WalletConfig String
wallet = record {
  config_funds = FundOf.amount 5000 ∷ FundOf.configured (some "200") (some "2") none ∷ [];
  config_start_blocks = some "1";
  config_start_rounds = none;
  config_stop_blocks = none;
  config_stop_rounds = none;
  config_version = none;
  config_wasabi = none;
  config_joinmarket = some (record {
    config_role = some JoinMarketRole.taker;
    config_offers = none;
    config_tumbler_options = none;
    config_time_between_rounds = none;
    config_timeout_blocks = some 8;
    config_fidelity_bond = none;
    config_max_coinjoins = none;
    config_jm_spends = some (read_spend ∷ []);
  });
}

parse_wallet-wallet_entry_example : parse_wallet (wallet_entry wallet) ≡ ok wallet
unfolding parse_wallet
parse_wallet-wallet_entry_example = parse_wallet-wallet_entry entry wallet refl
