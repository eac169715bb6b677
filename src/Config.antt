-- ===== src/Config.antt =====
-- `_parse_postmix_spend` of manager/engine/configuration.py, over a decoded JSON value. A number with a
-- decimal point is given by its hundredths, and the names of errors stand for their texts.
pub mod Spends
pub mod Wallets
pub mod Scenario
mod Examples
use coinjoin_emulator.Base.{
  ℕ, zero, suc, ◌*◌, Bool, true, false, not, String, Option, none, some, List, [], ◌∷◌, ltb, str_eq,
  if◌then◌else◌, is_some, any, Result, ok, err, ◌>>=◌,
}
use coinjoin_emulator.Base.Int.{ℤ, pos, negsuc}
use coinjoin_emulator.PostmixSpends.{PostmixSpendConfig}

pub data Json : Type 0 where
  null other : Json
  boolean : Bool → Json
  integer decimal : ℤ → Json
  text : String → Json

-- The entries of an object that a spend reads, and the names of all others.
pub record SpendEntry : Type 0 where
  pub value : Option Json
  pub all : Option Json
  pub delay_blocks : Option Json
  pub delay_rounds : Option Json
  pub min_anon_score : Option Json
  pub coin_selection : Option Json
  pub unknown : List String

pub data SpendError : Type 0 where
  not_an_object unknown_fields all_not_boolean value_not_positive not_exactly_one delay_negative
        score_not_positive score_on_joinmarket selection_unsupported :
      SpendError

-- `entry.get("value")`: absent or null, or a positive integer.
unfoldable pub parse_value : Option Json → Result SpendError (Option ℕ)
parse_value none = ok none
parse_value (some null) = ok none
parse_value (some (integer (pos (suc n)))) = ok (some (suc n))
parse_value (some _) = err value_not_positive

-- `entry.get("all", False)`, a Boolean.
unfoldable pub parse_all : Option Json → Result SpendError Bool
parse_all none = ok false
parse_all (some (boolean b)) = ok b
parse_all (some _) = err all_not_boolean

unfoldable pub parse_delay : Option Json → Result SpendError (Option ℕ)
parse_delay none = ok none
parse_delay (some null) = ok none
parse_delay (some (integer (pos n))) = ok (some n)
parse_delay (some _) = err delay_negative

-- A score in hundredths.
unfoldable pub parse_score : Option Json → Result SpendError (Option ℕ)
parse_score none = ok none
parse_score (some null) = ok none
parse_score (some (integer (pos (suc n)))) = ok (some (suc n * 100))
parse_score (some (decimal (pos (suc n)))) = ok (some (suc n))
parse_score (some _) = err score_not_positive

-- JOINMARKET_COIN_SELECTIONS or COIN_SELECTIONS
unfoldable pub selections : Bool → List String
selections true = "amount" ∷ []
selections false = "anon_score" ∷ "amount" ∷ []

unfoldable pub first_selection : Bool → String
first_selection true = "amount"
first_selection false = "anon_score"

unfoldable pub parse_selection : Bool → Option Json → Result SpendError String
unfolding selections first_selection
parse_selection joinmarket none = ok (first_selection joinmarket)
parse_selection joinmarket (some (text s)) =
    if any (λ t. str_eq t s) (selections joinmarket) then ok s else err selection_unsupported
parse_selection joinmarket (some _) = err selection_unsupported

-- A test that raises.
unfoldable pub refuse_if : Bool → SpendError → Result SpendError (Unit {0})
refuse_if true e = err e
refuse_if false e = ok tt

abbrev same_bool : Bool → Bool → Bool
same_bool true b = b
same_bool false b = not b

abbrev is_any : List String → Bool
is_any [] = false
is_any (_ ∷ _) = true

abbrev both : Bool → Bool → Bool
both true b = b
both false b = false

-- The checks in their order, and the spend.
unfoldable pub parse_entry : Bool → SpendEntry → Result SpendError PostmixSpendConfig
unfolding parse_value parse_all parse_delay parse_score parse_selection refuse_if
parse_entry joinmarket e = do
  _ ← refuse_if (is_any e.unknown) unknown_fields
  all ← parse_all e.all
  value ← parse_value e.value
  _ ← refuse_if (same_bool (is_some value) all) not_exactly_one
  blocks ← parse_delay e.delay_blocks
  rounds ← parse_delay e.delay_rounds
  score ← parse_score e.min_anon_score
  _ ← refuse_if (both joinmarket (is_some score)) score_on_joinmarket
  selection ← parse_selection joinmarket e.coin_selection
  ok (record {
    config_value = value;
    config_all = all;
    config_delay_blocks = blocks;
    config_delay_rounds = rounds;
    config_min_anon_score = score;
    config_coin_selection = selection;
  })

-- `_parse_postmix_spend`, of an object or anything else.
unfoldable pub parse_postmix_spend : Bool → Option SpendEntry → Result SpendError PostmixSpendConfig
unfolding parse_entry
parse_postmix_spend joinmarket none = err not_an_object
parse_postmix_spend joinmarket (some e) = parse_entry joinmarket e
