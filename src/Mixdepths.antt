-- ===== src/Mixdepths.antt =====
-- manager/engine/joinmarket/postmix.py: a JoinMarket wallet's coins for a postmix spend, by mixdepth. An
-- outpoint, `txid:index` in jmwalletd's listing, is given by its parts.
pub mod Chosen
pub mod Grouped
pub mod Payment
pub mod Sweep
pub mod Thawed
mod Examples
use coinjoin_emulator.Base.{
  ℕ, ◌+◌, Bool, true, false, not, ◌&&◌, ◌||◌, String, Option, none, some, List, [], ◌∷◌, ◌++◌, map,
  ltb, leb, ◌==◌, str_eq, if◌then◌else◌, any, Result, ok, err, or_default,
}
use coinjoin_emulator.Base.Sums.{sum}
use coinjoin_emulator.Selection.{select_by_amount}

pub record JoinMarketCoin : Type 0 where
  pub txid : String
  pub index : ℕ
  pub value : ℕ
  pub mixdepth : ℕ
  pub confirmations : Option ℕ
  pub frozen : Bool

abbrev pub coin_value : JoinMarketCoin → ℕ
coin_value c = c.value

same_option : Option ℕ → Option ℕ → Bool
same_option none none = true
same_option (some a) (some b) = a == b
same_option _ _ = false

same_bool : Bool → Bool → Bool
same_bool true b = b
same_bool false b = not b

-- `==` of two coin dictionaries
unfoldable pub same_coin : JoinMarketCoin → JoinMarketCoin → Bool
unfolding same_option same_bool
same_coin a b =
    str_eq a.txid b.txid
    && (a.index == b.index
        && (a.value == b.value
            && (a.mixdepth == b.mixdepth
                && (same_option a.confirmations b.confirmations && same_bool a.frozen b.frozen))))

-- `unspent is None or unspent(txid, index)`
unfoldable pub seen_unspent : Option (String → ℕ → Bool) → JoinMarketCoin → Bool
seen_unspent none c = true
seen_unspent (some unspent) c = unspent c.txid c.index

-- A coin that a spend may use: confirmed, not frozen, of a coinjoin of the run, and unspent.
unfoldable pub is_usable : List String → Option (String → ℕ → Bool) → JoinMarketCoin → Bool
unfolding seen_unspent
is_usable coinjoins unspent c =
    ltb 0 (or_default c.confirmations 0)
    && (not c.frozen && (any (λ t. str_eq t c.txid) coinjoins && seen_unspent unspent c))

abbrev pub Depths : Type 0
Depths = List (ℕ × List JoinMarketCoin)

-- `by_mixdepth.setdefault(mixdepth, []).append(coin)`
unfoldable pub add_coin : JoinMarketCoin → Depths → Depths
add_coin c [] = (c.mixdepth, c ∷ []) ∷ []
add_coin c ((d, cs) ∷ g) = if d == c.mixdepth then (d, cs ++ c ∷ []) ∷ g else (d, cs) ∷ add_coin c g

-- The loop that groups the usable coins.
unfoldable pub group_coins :
    List String → Option (String → ℕ → Bool) → List JoinMarketCoin → Depths → Depths
unfolding add_coin is_usable
group_coins coinjoins unspent [] g = g
group_coins coinjoins unspent (c ∷ cs) g =
    group_coins coinjoins unspent cs (if is_usable coinjoins unspent c then add_coin c g else g)

-- A mixdepth with what is selected of it and the sum.
pub record Covering : Type 0 where
  pub total : ℕ
  pub depth : ℕ
  pub selected : List JoinMarketCoin

-- The list `covering`: the mixdepths whose selection reaches the value.
unfoldable pub covering : ℕ → Depths → List Covering
unfolding select_by_amount same_coin
covering v [] = []
covering v ((d, cs) ∷ g) =
    let (chosen, sats) = select_by_amount coin_value same_coin cs v in
    let rest = covering v g in
    if leb v sats then record { total = sats; depth = d; selected = chosen } ∷ rest else rest

-- `(total, mixdepth)` of one before that of the other.
unfoldable pub before : Covering → Covering → Bool
before a b = ltb a.total b.total || (a.total == b.total && ltb a.depth b.depth)

-- `min`, which keeps the first of equal ones.
unfoldable pub least : Covering → List Covering → Covering
unfolding before
least best [] = best
least best (c ∷ cs) = least (if before c best then c else best) cs

-- The largest sum of a mixdepth, for the error.
unfoldable pub best_sum : Depths → ℕ
best_sum [] = 0
best_sum ((d, cs) ∷ g) =
    let rest = best_sum g in if ltb rest (sum coin_value cs) then sum coin_value cs else rest

-- The `RuntimeError`s of `_select`, and the `ValueError` of `send_mixed_coins`.
pub data MixdepthError : Type 0 where
  no_mixed_coins : MixdepthError
  none_covers : ℕ → ℕ → MixdepthError
  unsupported_selection : String → MixdepthError

all_of : Depths → Result MixdepthError Depths
all_of [] = err MixdepthError.no_mixed_coins
all_of (d ∷ g) = ok (d ∷ g)

one_of : ℕ → ℕ → List Covering → Result MixdepthError Depths
unfolding least
one_of v best [] = err (MixdepthError.none_covers best v)
one_of v best (c ∷ cs) = let chosen = least c cs in ok ((chosen.depth, chosen.selected) ∷ [])

-- The branches of `_select` over the grouped coins.
unfoldable pub select_depths : Option ℕ → Depths → Result MixdepthError Depths
unfolding all_of one_of covering best_sum
select_depths none g = all_of g
select_depths (some v) g = one_of v (best_sum g) (covering v g)

-- `_select`
unfoldable pub select :
    List String
    → List JoinMarketCoin
    → Option ℕ
    → Option (String → ℕ → Bool)
    → Result MixdepthError Depths
unfolding select_depths group_coins
select coinjoins coins value unspent = select_depths value (group_coins coinjoins unspent coins [])
