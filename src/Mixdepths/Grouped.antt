-- ===== src/Mixdepths/Grouped.antt =====
-- A spend never merges mixdepths, and takes only coins that it may use.
use coinjoin_emulator.Base.{
  ℕ, ◌≡◌, subst, Bool, true, ◌&&◌, String, Option, none, some, List, [], ◌∷◌, leb, ◌==◌, eq_iff, ok,
  arith, All, All-append, All-imp, any, or_default, str_eq, false, ◌<◌, Bool-cases, inl, inr, ◌↔◌,
}
use coinjoin_emulator.Base.Sums.{All-part}
use coinjoin_emulator.Selection.{select_by_amount}
use coinjoin_emulator.Selection.Drawn.{select_by_amount-perm}
use coinjoin_emulator.Mixdepths.{
  JoinMarketCoin, coin_value, same_coin, seen_unspent, same_option, is_usable, Depths, add_coin,
  group_coins, Covering, covering, least, all_of, one_of, select_depths, select, before, best_sum,
}

pub same_coin_iff : (a b : JoinMarketCoin) → (same_coin a b ≡ true) ↔ (a ≡ b)
unfolding same_coin
same_coin_iff a b =
    ground (arith, eq_iff a.txid b.txid, same_option_iff a.confirmations b.confirmations)
  where
    same_option_iff : (a b : Option ℕ) → (same_option a b ≡ true) ↔ (a ≡ b)
    same_option_iff none none = ground arith
    same_option_iff none (some b) = ground arith
    same_option_iff (some a) none = ground arith
    same_option_iff (some a) (some b) = ground arith

module _ (coinjoins : List String) (unspent : Option (String → ℕ → Bool)) where
  -- A coin that may be used, of a mixdepth.
  abbrev pub fits : ℕ → JoinMarketCoin → Bool
  fits d c = is_usable coinjoins unspent c && c.mixdepth == d

  -- Every coin of each group fits the group's mixdepth.
  abbrev Fits : Depths → Type 0
  Fits = All (λ g. All (λ c. fits g.0 c ≡ true) g.1)

  Fits-add_coin :
      (c : JoinMarketCoin) (g : Depths)
      → is_usable coinjoins unspent c ≡ true
      → Fits g
      → Fits (add_coin c g)
  unfolding add_coin
  Fits-add_coin c [] u h = ((ground arith, tt), tt)
  Fits-add_coin c ((d, cs) ∷ g) u h = elim (Bool-cases (d == c.mixdepth)) [
    | inl e ↦ rw e ((All-append (λ x. fits d x ≡ true) cs (c ∷ []) h.0 (ground arith, tt), h.1))
    | inr e ↦ rw e (h.0, Fits-add_coin c g u h.1)
  ]

  Fits-group_coins :
      (cs : List JoinMarketCoin) (g : Depths) → Fits g → Fits (group_coins coinjoins unspent cs g)
  unfolding group_coins
  Fits-group_coins [] g h = h
  Fits-group_coins (c ∷ cs) g h = elim (Bool-cases (is_usable coinjoins unspent c)) [
    | inl e ↦ rw e (Fits-group_coins cs (add_coin c g) (Fits-add_coin c g e h))
    | inr e ↦ rw e (Fits-group_coins cs g h)
  ]

  abbrev Fitting : Covering → Type 0
  Fitting k = All (λ c. fits k.depth c ≡ true) k.selected

  Fitting-covering : (v : ℕ) (g : Depths) → Fits g → All Fitting (covering v g)
  unfolding covering
  Fitting-covering v [] h = tt
  Fitting-covering v ((d, cs) ∷ g) h =
      let ((left, p), total) = select_by_amount-perm coin_value same_coin same_coin_iff cs v in
      let rest = Fitting-covering v g h.1 in
      elim (Bool-cases (leb v (select_by_amount coin_value same_coin cs v).1)) [
        | inl e ↦ rw e (All-part (fits d) _ left cs p h.0, rest)
        | inr e ↦ rw e rest
      ]

  Fitting-least :
      (c : Covering) (cs : List Covering) → Fitting c → All Fitting cs → Fitting (least c cs)
  unfolding least
  Fitting-least c [] h hs = h
  Fitting-least c (x ∷ cs) h hs = elim (Bool-cases (before x c)) [
    | inl e ↦ rw (e, least) (Fitting-least x cs hs.0 hs.1)
    | inr e ↦ rw (e, least) (Fitting-least c cs h hs.1)
  ]

  Fits-one_of :
      (v best : ℕ) (cs : List Covering) (g : Depths)
      → All Fitting cs
      → one_of v best cs ≡ ok g
      → Fits g
  unfolding one_of
  Fits-one_of v best [] g h e = absurd (cc e)
  Fits-one_of v best (c ∷ cs) g h e =
      let k = least c cs in
      let same : (k.depth, k.selected) ∷ [] ≡ g = cc e in
      subst Fits same (Fitting-least c cs h.0 h.1, tt)

  Fits-select_depths :
      (value : Option ℕ) (groups g : Depths)
      → Fits groups
      → select_depths value groups ≡ ok g
      → Fits g
  unfolding select_depths all_of
  Fits-select_depths none [] g h e = absurd (cc e)
  Fits-select_depths none (x ∷ xs) g h e = (let same : x ∷ xs ≡ g = cc e in subst Fits same h)
  Fits-select_depths (some v) groups g h e =
      Fits-one_of v (best_sum groups) (covering v groups) g (Fitting-covering v groups h) e

  -- A coin that a spend may take: confirmed, not frozen, of a coinjoin of the run, and unspent where that
  -- can be asked.
  abbrev IsUnspent : Option (String → ℕ → Bool) → JoinMarketCoin → Type 0
  IsUnspent none c = Unit
  IsUnspent (some f) c = f c.txid c.index ≡ true

  pub record IsSpendable (c : JoinMarketCoin) : Type 0 where
    pub confirmed : 0 < or_default c.confirmations 0
    pub thawed : c.frozen ≡ false
    pub of_the_run : any (λ t. str_eq t c.txid) coinjoins ≡ true
    pub unspent_there : IsUnspent unspent c

  -- Every coin of each group is of the group's mixdepth, and a spend may take it.
  abbrev pub Separate : Depths → Type 0
  Separate = All (λ g. All (λ c. (c.mixdepth ≡ g.0) × IsSpendable c) g.1)

  IsUnspent-seen_unspent :
      (o : Option (String → ℕ → Bool)) (c : JoinMarketCoin)
      → seen_unspent o c ≡ true
      → IsUnspent o c
  unfolding seen_unspent
  IsUnspent-seen_unspent none c h = tt
  IsUnspent-seen_unspent (some f) c h = h

  IsSpendable-fits :
      (d : ℕ) (c : JoinMarketCoin) → fits d c ≡ true → (c.mixdepth ≡ d) × IsSpendable c
  unfolding is_usable
  IsSpendable-fits d c h = (
    ground (arith, h),
    record {
      confirmed = ground (arith, h);
      thawed = ground (arith, h);
      of_the_run = ground (arith, h);
      unspent_there = IsUnspent-seen_unspent unspent c (ground (arith, h));
    },
  )

  Separate-Fits : (g : Depths) → Fits g → Separate g
  Separate-Fits g h =
      All-imp (λ x. All (λ c. fits x.0 c ≡ true) x.1)
        (λ x. All (λ c. (c.mixdepth ≡ x.0) × IsSpendable c) x.1) g
        (λ x k.
          All-imp (λ c. fits x.0 c ≡ true) (λ c. (c.mixdepth ≡ x.0) × IsSpendable c) x.1
            (λ c. IsSpendable-fits x.0 c) k)
        h

  -- Whatever a selection returns, each coin that it holds under a mixdepth is of that mixdepth,
  -- confirmed, not frozen, of a coinjoin of the run, and unspent.
  pub select-Separate :
      (coins : List JoinMarketCoin) (value : Option ℕ) (g : Depths)
      → select coinjoins coins value unspent ≡ ok g
      → Separate g
  unfolding select
  select-Separate coins value g e = Separate-Fits g (
      Fits-select_depths value (group_coins coinjoins unspent coins []) g
        (Fits-group_coins coins [] tt) e)
