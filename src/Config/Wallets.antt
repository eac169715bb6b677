-- ===== src/Config/Wallets.antt =====
-- `_parse_wallet`, `from_json_config`, `validate_for_engine` and `to_dict` of
-- manager/engine/configuration.py. A JSON value that is only passed on is a parameter; the entries of
-- an object are a record, in which an absent entry and a null are both `none`, save for the
-- value of a fund.
pub mod Again
pub mod RoundTrip
pub mod Examples
use coinjoin_emulator.Base.{
  ℕ, zero, suc, ◌+◌, Bool, true, false, not, ◌&&◌, ◌||◌, String, Option, none, some, List, [], ◌∷◌,
  map, ltb, ◌==◌, str_eq, if◌then◌else◌, is_some, any, Result, ok, err, bind, ◌>>=◌,
}
use coinjoin_emulator.Base.Int.{ℤ, pos, negsuc}
use coinjoin_emulator.PostmixSpends.{PostmixSpendConfig}
use coinjoin_emulator.Config.{Json, SpendEntry, SpendError, parse_postmix_spend}

-- An entry of `funds`: an integer, an object, whose value may be missing or null, or anything else, which
-- is passed on.
pub data FundEntry (J : Type 0) : Type 0 where
  number : ℕ → FundEntry J
  object : (value : Option (Option J)) (delay_blocks delay_rounds : Option J) → FundEntry J
  fallback : J → FundEntry J

-- `FundConfig`, or what is not one.
pub data FundOf (J : Type 0) : Type 0 where
  amount : ℕ → FundOf J
  configured : (value delay_blocks delay_rounds : Option J) → FundOf J
  passed_on : J → FundOf J

-- The entry `postmix_spends`: a list, of objects or anything else, or no list.
pub data SpendsEntry : Type 0 where
  no_list : SpendsEntry
  list : List (Option SpendEntry) → SpendsEntry

pub record WasabiEntry (J : Type 0) : Type 0 where
  pub anon_score_target : Option J
  pub redcoin_isolation : Option J
  pub skip_rounds : Option J
  pub wasabi_spends : Option SpendsEntry

pub record JoinMarketEntry (J : Type 0) : Type 0 where
  pub role : Option String
  pub offers : Option J
  pub tumbler_options : Option J
  pub time_between_rounds : Option J
  pub coinjoin_timeout_blocks : Option Json
  pub fidelity_bond : Option J
  pub max_coinjoins : Option J
  pub joinmarket_spends : Option SpendsEntry

-- A wallet's object, with whether it has one of the flat fields of old.
pub record WalletEntry (J : Type 0) : Type 0 where
  pub funds : List (FundEntry J)
  pub delay_blocks : Option J
  pub delay_rounds : Option J
  pub stop_blocks : Option J
  pub stop_rounds : Option J
  pub version : Option J
  pub flat_wasabi : Bool
  pub flat_joinmarket : Bool
  pub wasabi : WasabiEntry J
  pub joinmarket : JoinMarketEntry J

-- `JoinMarketRole`
pub data JoinMarketRole : Type 0 where
  maker taker : JoinMarketRole

pub record WasabiConfig (J : Type 0) : Type 0 where
  pub config_anon_score_target : Option J
  pub config_redcoin_isolation : Option J
  pub config_skip_rounds : Option J
  pub config_spends : Option (List PostmixSpendConfig)

pub record JoinMarketConfig (J : Type 0) : Type 0 where
  pub config_role : Option JoinMarketRole
  pub config_offers : Option J
  pub config_tumbler_options : Option J
  pub config_time_between_rounds : Option J
  pub config_timeout_blocks : Option ℕ
  pub config_fidelity_bond : Option J
  pub config_max_coinjoins : Option J
  pub config_jm_spends : Option (List PostmixSpendConfig)

pub record WalletConfig (J : Type 0) : Type 0 where
  pub config_funds : List (FundOf J)
  pub config_start_blocks : Option J
  pub config_start_rounds : Option J
  pub config_stop_blocks : Option J
  pub config_stop_rounds : Option J
  pub config_version : Option J
  pub config_wasabi : Option (WasabiConfig J)
  pub config_joinmarket : Option (JoinMarketConfig J)

pub data WalletError : Type 0 where
  fund_without_value : WalletError
  flat_wasabi_settings : WalletError
  flat_joinmarket_settings : WalletError
  spends_not_a_list : WalletError
  bad_spend : ℕ → SpendError → WalletError
  timeout_not_positive : WalletError
  invalid_role : WalletError

unfoldable pub refuse_when : Bool → WalletError → Result WalletError (Unit {0})
refuse_when true e = err e
refuse_when false e = ok tt

unfoldable pub name_spend :
    ℕ → Result SpendError PostmixSpendConfig → Result WalletError PostmixSpendConfig
name_spend i (ok c) = ok c
name_spend i (err e) = err (bad_spend i e)

-- `enumerate(entries)`, from an index on.
unfoldable pub parse_spends_from :
    Bool → ℕ → List (Option SpendEntry) → Result WalletError (List PostmixSpendConfig)
unfolding name_spend parse_postmix_spend
parse_spends_from joinmarket i [] = ok []
parse_spends_from joinmarket i (e ∷ es) = do
  c ← name_spend i (parse_postmix_spend joinmarket e)
  cs ← parse_spends_from joinmarket (i + 1) es
  ok (c ∷ cs)

unfoldable pub some_spends :
    Result WalletError (List PostmixSpendConfig)
    → Result WalletError (Option (List PostmixSpendConfig))
some_spends (ok cs) = ok (some cs)
some_spends (err e) = err e

-- `_parse_postmix_spends`, unless there are none.
unfoldable pub parse_postmix_spends :
    Bool → Option SpendsEntry → Result WalletError (Option (List PostmixSpendConfig))
unfolding parse_spends_from some_spends
parse_postmix_spends joinmarket none = ok none
parse_postmix_spends joinmarket (some no_list) = err spends_not_a_list
parse_postmix_spends joinmarket (some (list es)) = some_spends (parse_spends_from joinmarket 0 es)

unfoldable pub parse_timeout : Option Json → Result WalletError (Option ℕ)
parse_timeout none = ok none
parse_timeout (some Json.null) = ok none
parse_timeout (some (Json.integer (pos (suc n)))) = ok (some (suc n))
parse_timeout (some _) = err timeout_not_positive

-- `JoinMarketRole(str(role_value))`
unfoldable pub role_named : String → Result WalletError (Option JoinMarketRole)
role_named s =
    if str_eq s "maker"
    then ok (some maker)
    else if str_eq s "taker"
    then ok (some taker)
    else err invalid_role

unfoldable pub parse_role : Option String → Result WalletError (Option JoinMarketRole)
unfolding role_named
parse_role none = ok none
parse_role (some s) = role_named s

module _ {J : Type 0} where
  unfoldable pub parse_fund : FundEntry J → Result WalletError (FundOf J)
  parse_fund (number n) = ok (amount n)
  parse_fund (object none b r) = err fund_without_value
  parse_fund (object (some v) b r) = ok (configured v b r)
  parse_fund (fallback j) = ok (passed_on j)

  unfoldable pub parse_funds : List (FundEntry J) → Result WalletError (List (FundOf J))
  unfolding parse_fund
  parse_funds [] = ok []
  parse_funds (f ∷ fs) = do x ← parse_fund f; xs ← parse_funds fs; ok (x ∷ xs)

  -- The Wasabi settings, if any of them is there.
  unfoldable pub wasabi_config :
      WasabiEntry J → Option (List PostmixSpendConfig) → Option (WasabiConfig J)
  wasabi_config e spends =
      if is_some e.anon_score_target
        || (is_some e.redcoin_isolation || (is_some e.skip_rounds || is_some spends))
      then some (record {
        config_anon_score_target = e.anon_score_target;
        config_redcoin_isolation = e.redcoin_isolation;
        config_skip_rounds = e.skip_rounds;
        config_spends = spends;
      })
      else none

  -- Whether a JoinMarket setting is there.
  unfoldable pub any_joinmarket :
      JoinMarketEntry J → Option ℕ → Option (List PostmixSpendConfig) → Bool
  any_joinmarket e timeout spends =
      is_some e.role
      || (is_some e.offers
          || (is_some e.tumbler_options
              || (is_some e.time_between_rounds
                  || (is_some timeout
                      || (is_some e.fidelity_bond
                          || (is_some e.max_coinjoins || is_some spends))))))

  unfoldable pub joinmarket_config :
      JoinMarketEntry J
      → Option ℕ
      → Option (List PostmixSpendConfig)
      → Option JoinMarketRole
      → Option (JoinMarketConfig J)
  unfolding any_joinmarket
  joinmarket_config e timeout spends r =
      if any_joinmarket e timeout spends
      then some (record {
        config_role = r;
        config_offers = e.offers;
        config_tumbler_options = e.tumbler_options;
        config_time_between_rounds = e.time_between_rounds;
        config_timeout_blocks = timeout;
        config_fidelity_bond = e.fidelity_bond;
        config_max_coinjoins = e.max_coinjoins;
        config_jm_spends = spends;
      })
      else none

  -- `_parse_wallet`: the checks in their order.
  unfoldable pub parse_wallet : WalletEntry J → Result WalletError (WalletConfig J)
  unfolding parse_funds refuse_when parse_postmix_spends parse_timeout parse_role wasabi_config
      joinmarket_config
  parse_wallet e = do
    funds ← parse_funds e.funds
    _ ← refuse_when e.flat_wasabi flat_wasabi_settings
    wasabi_list ← parse_postmix_spends false e.wasabi.wasabi_spends
    _ ← refuse_when e.flat_joinmarket flat_joinmarket_settings
    joinmarket_list ← parse_postmix_spends true e.joinmarket.joinmarket_spends
    timeout ← parse_timeout e.joinmarket.coinjoin_timeout_blocks
    r ← parse_role e.joinmarket.role
    ok (record {
      config_funds = funds;
      config_start_blocks = e.delay_blocks;
      config_start_rounds = e.delay_rounds;
      config_stop_blocks = e.stop_blocks;
      config_stop_rounds = e.stop_rounds;
      config_version = e.version;
      config_wasabi = wasabi_config e.wasabi wasabi_list;
      config_joinmarket = joinmarket_config e.joinmarket timeout joinmarket_list r;
    })

-- `to_dict`: the entries of a wallet, as the scenario file has them. A score is written by its
-- hundredths.
unfoldable pub number_or_null : Option ℕ → Json
number_or_null none = Json.null
number_or_null (some n) = Json.integer (pos n)

unfoldable pub score_or_null : Option ℕ → Json
score_or_null none = Json.null
score_or_null (some n) = Json.decimal (pos n)

unfoldable pub spend_entry : PostmixSpendConfig → SpendEntry
unfolding number_or_null score_or_null
spend_entry c = record {
  value = some (number_or_null c.config_value);
  all = some (Json.boolean c.config_all);
  delay_blocks = some (number_or_null c.config_delay_blocks);
  delay_rounds = some (number_or_null c.config_delay_rounds);
  min_anon_score = some (score_or_null c.config_min_anon_score);
  coin_selection = some (Json.text c.config_coin_selection);
  unknown = [];
}

unfoldable pub spends_entry : Option (List PostmixSpendConfig) → Option SpendsEntry
unfolding spend_entry
spends_entry none = none
spends_entry (some cs) = some (list (map (λ c. some (spend_entry c)) cs))

-- `unwrap` of a role.
unfoldable pub role_entry : Option JoinMarketRole → Option String
role_entry none = none
role_entry (some maker) = some "maker"
role_entry (some taker) = some "taker"

module _ {J : Type 0} where
  unfoldable pub fund_entry : FundOf J → FundEntry J
  fund_entry (amount n) = number n
  fund_entry (configured v b r) = object (some v) b r
  fund_entry (passed_on j) = fallback j

  unfoldable pub wasabi_entry : Option (WasabiConfig J) → WasabiEntry J
  unfolding spends_entry
  wasabi_entry none = record {
    anon_score_target = none;
    redcoin_isolation = none;
    skip_rounds = none;
    wasabi_spends = none;
  }
  wasabi_entry (some c) = record {
    anon_score_target = c.config_anon_score_target;
    redcoin_isolation = c.config_redcoin_isolation;
    skip_rounds = c.config_skip_rounds;
    wasabi_spends = spends_entry c.config_spends;
  }

  unfoldable pub joinmarket_entry : Option (JoinMarketConfig J) → JoinMarketEntry J
  unfolding spends_entry role_entry number_or_null
  joinmarket_entry none = record {
    role = none;
    offers = none;
    tumbler_options = none;
    time_between_rounds = none;
    coinjoin_timeout_blocks = none;
    fidelity_bond = none;
    max_coinjoins = none;
    joinmarket_spends = none;
  }
  joinmarket_entry (some c) = record {
    role = role_entry c.config_role;
    offers = c.config_offers;
    tumbler_options = c.config_tumbler_options;
    time_between_rounds = c.config_time_between_rounds;
    coinjoin_timeout_blocks = some (number_or_null c.config_timeout_blocks);
    fidelity_bond = c.config_fidelity_bond;
    max_coinjoins = c.config_max_coinjoins;
    joinmarket_spends = spends_entry c.config_jm_spends;
  }

  unfoldable pub wallet_entry : WalletConfig J → WalletEntry J
  unfolding fund_entry wasabi_entry joinmarket_entry
  wallet_entry w = record {
    funds = map fund_entry w.config_funds;
    delay_blocks = w.config_start_blocks;
    delay_rounds = w.config_start_rounds;
    stop_blocks = w.config_stop_blocks;
    stop_rounds = w.config_stop_rounds;
    version = w.config_version;
    flat_wasabi = false;
    flat_joinmarket = false;
    wasabi = wasabi_entry w.config_wasabi;
    joinmarket = joinmarket_entry w.config_joinmarket;
  }
