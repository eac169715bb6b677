-- ===== src/Config/Scenario.antt =====
-- `from_json_config` and `validate_for_engine` of manager/engine/configuration.py, and the choice of a
-- client's class in `from_wallet` of
-- manager/wasabi_clients/joinmarket_clients/joinmarket_client_base.py. Whether a text is blank, and
-- whether a value that is only passed on is truthy, are parameters.
pub mod Validated
mod Examples
use coinjoin_emulator.Base.{
  ℕ, zero, suc, ◌+◌, Bool, true, false, not, ◌&&◌, String, Option, none, some, List, [], ◌∷◌, ltb,
  ◌==◌, str_eq, if◌then◌else◌, is_some, any, Result, ok, err, ◌>>=◌,
}
use coinjoin_emulator.Config.{Json}
use coinjoin_emulator.Config.Wallets.{
  WalletEntry, WalletConfig, WalletError, JoinMarketConfig, JoinMarketRole, maker, taker,
  parse_wallet,
}

-- A scenario's object; the other display and default values are passed on.
pub record ScenarioEntry (J : Type 0) : Type 0 where
  pub description : Option Json
  pub category : Option Json
  pub wallets : List (WalletEntry J)
  pub name : Option J
  pub rounds : Option ℕ
  pub blocks : Option ℕ
  pub default_version : Option J

pub record ScenarioConfig (J : Type 0) : Type 0 where
  pub scenario_name : J
  pub scenario_rounds : ℕ
  pub scenario_blocks : ℕ
  pub scenario_version : J
  pub scenario_wallets : List (WalletConfig J)
  pub scenario_description : Option String
  pub scenario_category : Option String

pub data ScenarioError : Type 0 where
  description_not_text category_empty missing_key : ScenarioError
  bad_wallet : WalletError → ScenarioError

unfoldable pub parse_description : Option Json → Result ScenarioError (Option String)
parse_description none = ok none
parse_description (some Json.null) = ok none
parse_description (some (Json.text s)) = ok (some s)
parse_description (some _) = err description_not_text

unfoldable pub parse_category : (String → Bool) → Option Json → Result ScenarioError (Option String)
parse_category is_blank none = ok none
parse_category is_blank (some Json.null) = ok none
parse_category is_blank (some (Json.text s)) =
    if is_blank s then err category_empty else ok (some s)
parse_category is_blank (some _) = err category_empty

-- `data[key]`
unfoldable pub required : {A : Type 0} → Option A → Result ScenarioError A
required none = err missing_key
required (some a) = ok a

unfoldable pub name_wallet :
    {J : Type 0} → Result WalletError (WalletConfig J) → Result ScenarioError (WalletConfig J)
name_wallet (ok w) = ok w
name_wallet (err e) = err (bad_wallet e)

unfoldable pub parse_wallets :
    {J : Type 0} → List (WalletEntry J) → Result ScenarioError (List (WalletConfig J))
unfolding name_wallet parse_wallet
parse_wallets [] = ok []
parse_wallets (e ∷ es) = do w ← name_wallet (parse_wallet e); ws ← parse_wallets es; ok (w ∷ ws)

-- `from_json_config`, of a decoded file.
unfoldable pub from_json_config :
    {J : Type 0} → (String → Bool) → ScenarioEntry J → Result ScenarioError (ScenarioConfig J)
unfolding parse_description parse_category required parse_wallets
from_json_config is_blank e = do
  description ← parse_description e.description
  category ← parse_category is_blank e.category
  wallets ← parse_wallets e.wallets
  name ← required e.name
  rounds ← required e.rounds
  blocks ← required e.blocks
  version ← required e.default_version
  ok (record {
    scenario_name = name;
    scenario_rounds = rounds;
    scenario_blocks = blocks;
    scenario_version = version;
    scenario_wallets = wallets;
    scenario_description = description;
    scenario_category = category;
  })

-- What `validate_for_engine` raises, with the indexes that it names.
pub data EngineError : Type 0 where
  wasabi_settings : List ℕ → EngineError
  missing_roles : List ℕ → EngineError
  tumbler_without_blocks : EngineError

-- The indexes of the wallets that a test finds.
unfoldable pub indexes_from : {A : Type 0} → ℕ → (A → Bool) → List A → List ℕ
indexes_from i p [] = []
indexes_from i p (x ∷ xs) = let rest = indexes_from (i + 1) p xs in if p x then i ∷ rest else rest

unfoldable pub refuse_indexes : (List ℕ → EngineError) → List ℕ → Result EngineError (Unit {0})
refuse_indexes e [] = ok tt
refuse_indexes e (i ∷ is) = err (e (i ∷ is))

unfoldable pub refuse_if_set : Bool → EngineError → Result EngineError (Unit {0})
refuse_if_set true e = err e
refuse_if_set false e = ok tt

unfoldable pub role_of : {J : Type 0} → Option (JoinMarketConfig J) → Option JoinMarketRole
role_of none = none
role_of (some c) = c.config_role

unfoldable pub is_taker : Option JoinMarketRole → Bool
is_taker (some taker) = true
is_taker _ = false

module _ {J : Type 0} (truthy : J → Bool) where
  unfoldable pub is_set : Option J → Bool
  is_set none = false
  is_set (some j) = truthy j

  unfoldable pub has_tumbler_options : Option (JoinMarketConfig J) → Bool
  unfolding is_set
  has_tumbler_options none = false
  has_tumbler_options (some c) = is_set c.config_tumbler_options

  -- A taker with tumbler options.
  unfoldable pub is_tumbler : WalletConfig J → Bool
  unfolding role_of is_taker has_tumbler_options
  is_tumbler w = is_taker (role_of w.config_joinmarket) && has_tumbler_options w.config_joinmarket

  -- The checks of `validate_for_engine` for the JoinMarket engine.
  unfoldable pub validate_joinmarket : ScenarioConfig J → Result EngineError (Unit {0})
  unfolding refuse_indexes indexes_from refuse_if_set is_tumbler role_of
  validate_joinmarket s = do
    _ ←
        refuse_indexes wasabi_settings
          (indexes_from 0 (λ w. is_some w.config_wasabi) s.scenario_wallets)
    _ ←
        refuse_indexes missing_roles
          (indexes_from 0 (λ w. not (is_some (role_of w.config_joinmarket))) s.scenario_wallets)
    refuse_if_set
        (ltb 0 s.scenario_rounds && (s.scenario_blocks == 0 && any is_tumbler s.scenario_wallets))
        tumbler_without_blocks

  -- `validate_for_engine`
  unfoldable pub validate_for_engine : String → ScenarioConfig J → Result EngineError (Unit {0})
  unfolding validate_joinmarket
  validate_for_engine engine s =
      if not (str_eq engine "joinmarket") then ok tt else validate_joinmarket s

-- The class of a client.
pub data ClientClass : Type 0 where
  maker_client taker_client tumbler_taker_client : ClientClass

-- The class that a role and the tumbler options select: without a role the type is "maker".
unfoldable pub class_of : Option JoinMarketRole → Bool → ClientClass
class_of none tumbling = maker_client
class_of (some maker) tumbling = maker_client
class_of (some taker) tumbling = if tumbling then tumbler_taker_client else taker_client

-- `client_cls` of `from_wallet`
unfoldable pub client_class : {J : Type 0} → (J → Bool) → WalletConfig J → ClientClass
unfolding class_of role_of has_tumbler_options
client_class truthy w =
    class_of (role_of w.config_joinmarket) (has_tumbler_options truthy w.config_joinmarket)
