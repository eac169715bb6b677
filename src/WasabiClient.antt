-- ===== src/WasabiClient.antt =====
-- manager/wasabi_clients/wasabi_client_base.py: the coins a Wasabi wallet spends, and the retries
-- of its RPC. An anonymity score is a number of hundredths, so `score_one` is the score 1.0.
pub mod Mixed
pub mod Inputs
pub mod Rpc
pub mod Settlement
mod Examples
use coinjoin_emulator.Base.{
  ℕ, ◌+◌, ◌-◌, String, Bool, true, false, not, ◌&&◌, Option, none, some, List, [], ◌∷◌, ◌++◌, ltb,
  leb, ◌==◌, str_eq, if◌then◌else◌, keep, Result, ok, err, ◌>>=◌, ◌||◌,
}
use coinjoin_emulator.Base.Sums.{sum}
use coinjoin_emulator.Base.Sort.{sort_by}
use coinjoin_emulator.Selection.{select_by_amount}

pub record WasabiCoin : Type 0 where
  pub txid : String
  pub index : ℕ
  pub amount : ℕ
  pub anonymity_score : ℕ
  pub confirmed : Bool

abbrev pub score_one : ℕ
score_one = 100

abbrev pub coin_amount : WasabiCoin → ℕ
coin_amount c = c.amount

abbrev same_bool : Bool → Bool → Bool
same_bool true b = b
same_bool false b = not b

-- `==` of two coin dictionaries
unfoldable pub same_coin : WasabiCoin → WasabiCoin → Bool
same_coin a b =
    str_eq a.txid b.txid
    && (a.index == b.index
        && (a.amount == b.amount
            && (a.anonymity_score == b.anonymity_score && same_bool a.confirmed b.confirmed)))

-- What `_select_mixed_coins` raises: its `ValueError` or its `RuntimeError`, with their data.
pub data SelectionError : Type 0 where
  unsupported_selection : String → SelectionError
  not_enough : ℕ → Option ℕ → SelectionError

-- `is_mixed`
unfoldable pub is_mixed : Option ℕ → WasabiCoin → Bool
is_mixed none c = ltb score_one c.anonymity_score
is_mixed (some least) c = leb least c.anonymity_score

-- `unspent is None or unspent(txid, index)`
unfoldable pub seen_unspent : Option (String → ℕ → Bool) → WasabiCoin → Bool
seen_unspent none c = true
seen_unspent (some unspent) c = unspent c.txid c.index

-- The filter of `_select_mixed_coins`: confirmed, mixed and unspent.
unfoldable pub is_candidate : Option ℕ → Option (String → ℕ → Bool) → WasabiCoin → Bool
unfolding is_mixed seen_unspent
is_candidate least unspent c = c.confirmed && (is_mixed least c && seen_unspent unspent c)

-- Sorted by score, the most private first.
unfoldable pub candidates :
    List WasabiCoin → Option ℕ → Option (String → ℕ → Bool) → List WasabiCoin
unfolding is_candidate sort_by
candidates coins least unspent =
    sort_by (λ a b. leb b.anonymity_score a.anonymity_score)
      (keep (is_candidate least unspent) coins)

anon_score_from : ℕ → List WasabiCoin → List WasabiCoin → ℕ → List WasabiCoin × ℕ
anon_score_from value [] selected total = (selected, total)
anon_score_from value (c ∷ cs) selected total =
    let rest = anon_score_from value cs (selected ++ c ∷ []) (total + c.amount) in
    if leb value total then (selected, total) else rest

-- `_select_coins_by_anon_score`
unfoldable pub select_coins_by_anon_score : List WasabiCoin → ℕ → List WasabiCoin × ℕ
unfolding anon_score_from
select_coins_by_anon_score coins value = anon_score_from value coins [] 0

-- `_select_coins_by_amount`
unfoldable pub select_coins_by_amount : List WasabiCoin → ℕ → List WasabiCoin × ℕ
unfolding select_by_amount same_coin
select_coins_by_amount = select_by_amount coin_amount same_coin

-- The branches of `_select_mixed_coins` over its candidates.
unfoldable pub choose_coins :
    List WasabiCoin → Option ℕ → String → Result SelectionError (List WasabiCoin × ℕ)
unfolding select_coins_by_amount select_coins_by_anon_score
choose_coins coins none selection = ok (coins, sum coin_amount coins)
choose_coins coins (some value) selection =
    if str_eq selection "amount"
    then ok (select_coins_by_amount coins value)
    else if str_eq selection "anon_score"
    then ok (select_coins_by_anon_score coins value)
    else err (unsupported_selection selection)

is_empty : {A : Type 0} → List A → Bool
is_empty [] = true
is_empty (_ ∷ _) = false

-- `value is not None and total < value`
falls_short : ℕ → Option ℕ → Bool
falls_short total none = false
falls_short total (some value) = ltb total value

-- The last test of `_select_mixed_coins`.
unfoldable pub require_enough :
    Option ℕ → List WasabiCoin × ℕ → Result SelectionError (List WasabiCoin × ℕ)
unfolding is_empty falls_short
require_enough value (selected, total) =
    if is_empty selected || falls_short total value
    then err (not_enough total value)
    else ok (selected, total)

-- `_select_mixed_coins`, of the coins that the wallet lists as unspent.
unfoldable pub select_mixed_coins :
    List WasabiCoin
    → Option ℕ
    → Option ℕ
    → Option (String → ℕ → Bool)
    → String
    → Result SelectionError (List WasabiCoin × ℕ)
unfolding candidates choose_coins require_enough
select_mixed_coins listed value least unspent selection =
    choose_coins (candidates listed least unspent) value selection >>= require_enough value

-- `check_mixed_coins`: the same selection with the default `coin_selection`.
unfoldable pub check_mixed_coins :
    List WasabiCoin
    → Option ℕ
    → Option ℕ
    → Option (String → ℕ → Bool)
    → Result SelectionError (Unit {0})
unfolding select_mixed_coins
check_mixed_coins listed value least unspent = do
  _ ← select_mixed_coins listed value least unspent "anon_score"
  ok tt
