-- ===== src/Selection.antt =====
-- Coin selection by amount, as manager/engine/joinmarket/postmix.py and
-- manager/wasabi_clients/wasabi_client_base.py write it for their own coins.
pub mod Drawn
pub mod Smallest
use coinjoin_emulator.Base.{
  ℕ, zero, suc, ◌+◌, ◌-◌, Bool, List, [], ◌∷◌, ◌++◌, ltb, leb, if◌then◌else◌, keep, length,
}
use coinjoin_emulator.Base.Sort.{sort_by}

module _ {A : Type 0} where
  -- `xs[-1]` of the list `x ∷ xs`
  pub last : A → List A → A
  last x [] = x
  last x (y ∷ ys) = last y ys

  -- `xs[0] if xs else default`
  pub first_or : List A → A → A
  first_or [] d = d
  first_or (c ∷ _) d = c

  -- `remaining.remove(coin)`, by the equality of coins
  pub remove : (A → A → Bool) → A → List A → List A
  remove same c [] = []
  remove same c (x ∷ xs) = if same x c then xs else x ∷ remove same c xs

-- A coin's value, and the equality of coins.
module _ {A : Type 0} (amount : A → ℕ) (same : A → A → Bool) where
  -- `covering[0] if covering else remaining[-1]` of the remaining coins `x ∷ xs`
  pub pick : ℕ → A → List A → A
  unfolding last first_or
  pick need x xs = first_or (keep (λ c. leb need (amount c)) (x ∷ xs)) (last x xs)

  -- The loop; the fuel counts the coins that remain.
  pub take_coins : ℕ → ℕ → List A → List A → ℕ → List A × ℕ
  unfolding pick remove
  take_coins zero value remaining selected total = (selected, total)
  take_coins (suc fuel) value [] selected total = (selected, total)
  take_coins (suc fuel) value (x ∷ xs) selected total =
      let coin = pick (value - total) x xs in
      let rest =
        take_coins fuel value (remove same coin (x ∷ xs)) (selected ++ coin ∷ [])
          (total + amount coin) in
      if ltb total value then rest else (selected, total)

  unfoldable pub select_by_amount : List A → ℕ → List A × ℕ
  unfolding take_coins sort_by
  select_by_amount candidates value =
      let remaining = sort_by (λ a b. leb (amount a) (amount b)) candidates in
      take_coins (length remaining) value remaining [] 0
