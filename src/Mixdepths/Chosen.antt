-- ===== src/Mixdepths/Chosen.antt =====
-- When a mixdepth covers the value, and which one is taken.
use coinjoin_emulator.Base.{
  ℕ, ◌≡◌, refl, ◌∙◌, sym, subst, Bool, true, false, String, Option, some, List, [], ◌∷◌, leb,
  if◌then◌else◌, any, ok, arith, is_ok, Bool-cases, inl, inr, ◌≤◌, All,
}
use coinjoin_emulator.Base.Sums.{sum}
use coinjoin_emulator.Selection.{select_by_amount}
use coinjoin_emulator.Selection.Drawn.{select_by_amount-covers}
use coinjoin_emulator.Mixdepths.{
  JoinMarketCoin, coin_value, same_coin, Depths, group_coins, Covering, covering, before, least,
  one_of, best_sum, select_depths, select,
}
use coinjoin_emulator.Mixdepths.Grouped.{same_coin_iff}

-- Some mixdepth's coins sum to the value.
abbrev pub some_covers : ℕ → Depths → Bool
some_covers v g = any (λ p. leb v (sum coin_value p.1)) g

reaches :
    (v : ℕ) (cs : List JoinMarketCoin)
    → leb v (select_by_amount coin_value same_coin cs v).1 ≡ leb v (sum coin_value cs)
reaches v cs =
    let (low, high) = select_by_amount-covers coin_value same_coin same_coin_iff cs v in
    ground (arith, low, high)

-- Whether a list has an entry.
abbrev has_any : List Covering → Bool
has_any [] = false
has_any (_ ∷ _) = true

has_any-covering : (v : ℕ) (g : Depths) → has_any (covering v g) ≡ some_covers v g
unfolding covering
has_any-covering v [] = refl
has_any-covering v ((d, cs) ∷ g) = ground (arith, reaches v cs, has_any-covering v g)

is_ok-one_of : (v best : ℕ) (cs : List Covering) → is_ok (one_of v best cs) ≡ has_any cs
unfolding one_of
is_ok-one_of v best [] = refl
is_ok-one_of v best (c ∷ cs) = refl

-- With a value a selection returns exactly if some mixdepth's usable coins reach the value together;
-- coins of several mixdepths that only reach it together do not do.
pub is_ok-select :
    (coinjoins : List String) (coins : List JoinMarketCoin) (v : ℕ)
    (unspent : Option (String → ℕ → Bool))
    → is_ok (select coinjoins coins (some v) unspent)
      ≡ some_covers v (group_coins coinjoins unspent coins [])
unfolding select select_depths
is_ok-select coinjoins coins v unspent =
    let g = group_coins coinjoins unspent coins [] in
    is_ok-one_of v (best_sum g) (covering v g) ∙ has_any-covering v g

before-le : (a b : Covering) → before a b ≡ true → a.total ≤ b.total
unfolding before
before-le a b h = ground (arith, h)

not_before-le : (a b : Covering) → before a b ≡ false → b.total ≤ a.total
unfolding before
not_before-le a b h = ground (arith, h)

least-le :
    (c : Covering) (cs : List Covering)
    → ((least c cs).total ≤ c.total) × All (λ k. (least c cs).total ≤ k.total) cs
unfolding least
least-le c [] = (omega arith, tt)
least-le c (x ∷ cs) =
    let T : Bool → Type 0 = λ b.
      let k = least (if b then x else c) cs in
      (k.total ≤ c.total) × All (λ z. k.total ≤ z.total) (x ∷ cs) in
    elim (Bool-cases (before x c)) [
      | inl e ↦ subst T (sym e) (
          let (a, b) = least-le x cs in
          let lower : x.total ≤ c.total = before-le x c e in (omega (arith, a, lower), (a, b)))
      | inr e ↦ subst T (sym e) (
          let (a, b) = least-le c cs in
          let upper : c.total ≤ x.total = not_before-le x c e in (a, (omega (arith, a, upper), b)))
    ]

one_of-least :
    (v best : ℕ) (cs : List Covering) (g : Depths)
    → one_of v best cs ≡ ok g
    → (k : Covering) × (g ≡ (k.depth, k.selected) ∷ []) × All (λ z. k.total ≤ z.total) cs
unfolding one_of
one_of-least v best [] g e = absurd (cc e)
one_of-least v best (c ∷ cs) g e =
    let k = least c cs in
    let same : g ≡ (k.depth, k.selected) ∷ [] = cc e in
    let (a, b) = least-le c cs in (k, same, (a, b))

-- With a value a selection returns one mixdepth's, and no mixdepth that covers the value has a
-- selection with a smaller sum.
pub select_one :
    (coinjoins : List String) (coins : List JoinMarketCoin) (v : ℕ)
    (unspent : Option (String → ℕ → Bool)) (g : Depths)
    → select coinjoins coins (some v) unspent ≡ ok g
    → (k : Covering) × (g ≡ (k.depth, k.selected) ∷ [])
      × All (λ z. k.total ≤ z.total) (covering v (group_coins coinjoins unspent coins []))
unfolding select select_depths
select_one coinjoins coins v unspent g e =
    let groups = group_coins coinjoins unspent coins [] in
    one_of-least v (best_sum groups) (covering v groups) g e
