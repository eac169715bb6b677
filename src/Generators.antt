-- ===== src/Generators.antt =====
-- manager/commands/genscen_joinmarket.py: the numbers of a generated JoinMarket scenario. The random
-- draws, the shuffle, the sort and the share of a total (a product with 0.3) are parameters.
pub mod Utxos
pub mod Partition
pub mod Months
mod Examples
use coinjoin_emulator.Base.{
  ℕ, zero, suc, ◌+◌, ◌-◌, ◌*◌, Bool, true, false, Option, none, some, List, [], ◌∷◌, ◌++◌, ltb, leb,
  ◌==◌, length, take, if◌then◌else◌,
}

-- `min`
abbrev pub lesser : ℕ → ℕ → ℕ
lesser a b = if leb a b then a else b

-- `random.randint(lo, hi)`, which raises for an empty range; otherwise what is drawn.
unfoldable pub randint : (ℕ → ℕ → ℕ) → ℕ → ℕ → Option ℕ
randint draw lo hi = if leb lo hi then some (draw lo hi) else none

-- The coins that are drawn, and what remains.
abbrev pub add_utxo : ℕ → Option (List ℕ × ℕ) → Option (List ℕ × ℕ)
add_utxo u none = none
add_utxo u (some (us, remaining)) = some (u ∷ us, remaining)

unfoldable pub then_utxo : Option ℕ → ℕ → (ℕ → Option (List ℕ × ℕ)) → Option (List ℕ × ℕ)
then_utxo none remaining rest = none
then_utxo (some u) remaining rest = add_utxo u (rest (remaining - u))

module _ (draw : ℕ → ℕ → ℕ → ℕ) (min_utxo_size total_share : ℕ) where
  -- The draw of one coin, with `left` coins to come after it.
  unfoldable pub draw_utxo : ℕ → ℕ → Option ℕ
  unfolding randint
  draw_utxo left remaining =
      let max_utxo = remaining - left * min_utxo_size in
      if ltb min_utxo_size max_utxo
      then randint (draw left) min_utxo_size (lesser max_utxo total_share)
      else some min_utxo_size

  -- The loop of `generate_utxos`: `n` coins, and one more after them.
  unfoldable pub draw_utxos : ℕ → ℕ → Option (List ℕ × ℕ)
  unfolding draw_utxo then_utxo
  draw_utxos zero remaining = some ([], remaining)
  draw_utxos (suc n) remaining = then_utxo (draw_utxo (suc n) remaining) remaining (draw_utxos n)

-- `utxos[-1] -= missing`, which raises where there is none.
unfoldable pub lower_last : ℕ → List ℕ → Option (List ℕ)
lower_last missing [] = none
lower_last missing (u ∷ []) = some ((u - missing) ∷ [])
lower_last missing (u ∷ v ∷ us) = keep_first (lower_last missing (v ∷ us))
  where
    keep_first : Option (List ℕ) → Option (List ℕ)
    keep_first none = none
    keep_first (some l) = some (u ∷ l)

unfoldable pub append_last : ℕ → Option (List ℕ) → Option (List ℕ)
append_last u none = none
append_last u (some us) = some (us ++ u ∷ [])

-- The last coin is what remains, or of the least size, at the expense of the one before.
unfoldable pub finish_utxos : ℕ → Option (List ℕ × ℕ) → Option (List ℕ)
unfolding lower_last append_last
finish_utxos min_utxo_size none = none
finish_utxos min_utxo_size (some (us, remaining)) =
    if leb min_utxo_size remaining
    then some (us ++ remaining ∷ [])
    else append_last min_utxo_size (lower_last (min_utxo_size - remaining) us)

abbrev shuffled : (List ℕ → List ℕ) → Option (List ℕ) → Option (List ℕ)
shuffled shuffle none = none
shuffled shuffle (some us) = some (shuffle us)

-- `generate_utxos`, of a total in satoshis.
unfoldable pub generate_utxos :
    (draw : ℕ → ℕ → ℕ → ℕ) (share : ℕ → ℕ) (shuffle : List ℕ → List ℕ)
    → (min_utxo_size total_sats num_utxos : ℕ) → Option (List ℕ)
unfolding draw_utxos finish_utxos
generate_utxos draw share shuffle min_utxo_size total_sats num_utxos =
    let least = num_utxos * min_utxo_size in
    let total = if ltb total_sats least then least else total_sats in
    shuffled shuffle (
      finish_utxos min_utxo_size
        (draw_utxos draw min_utxo_size (share total) (num_utxos - 1) total))

-- The differences of sorted cuts, from the first one on, and what is left above the last.
unfoldable pub parts_from : ℕ → ℕ → List ℕ → List ℕ
parts_from total low [] = (total - low) ∷ []
parts_from total low (c ∷ cs) = (c - low) ∷ parts_from total c cs

-- `random_partition`, with the sorted cuts that are drawn for it; a negative number of them raises.
unfoldable pub random_partition : (ℕ → List ℕ) → ℕ → ℕ → Option (List ℕ)
unfolding parts_from
random_partition draw_sorted total zero = none
random_partition draw_sorted total (suc n) =
    some (if n == 0 then total ∷ [] else parts_from total 0 (draw_sorted n))

abbrev zeros : ℕ → List ℕ
zeros zero = []
zeros (suc n) = 0 ∷ zeros n

-- `parse_delays`, of the numbers in the text, if there is one.
unfoldable pub parse_delays : Option (List ℕ) → ℕ → List ℕ
parse_delays none count = zeros count
parse_delays (some delays) count =
    take count
      (if ltb (length delays) count then delays ++ zeros (count - length delays) else delays)

-- A year and a month.
abbrev pub Date : Type 0
Date = ℕ × ℕ

-- `while future_month > 12`, on fuel.
unfoldable pub carry_years : ℕ → Date → Option Date
carry_years zero d = none
carry_years (suc fuel) (year, month) =
    let rest = carry_years fuel (year + 1, month - 12) in
    if ltb 12 month then rest else some (year, month)

-- The locktime of `generate_fidelity_bond_config`: some months from a date.
unfoldable pub locktime_after : ℕ → Date → Option Date
unfolding carry_years
locktime_after months (year, month) = carry_years (suc (month + months)) (year, month + months)
