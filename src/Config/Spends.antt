-- ===== src/Config/Spends.antt =====
-- What a parsed spend satisfies, by its engine and its entry.
use coinjoin_emulator.Base.{
  ℕ, zero, suc, ◌*◌, ◌<◌, ap, ◌⊎◌, ◌≡◌, refl, sym, subst, Bool, true, false, not, String, Option,
  none, some, str_eq, eq_iff, if◌then◌else◌, is_some, any, ok, err, bind-eq-ok, arith, inl, inr,
  Bool-cases,
}
use coinjoin_emulator.Base.Int.{pos, negsuc}
use coinjoin_emulator.PostmixSpends.{PostmixSpendConfig}
use coinjoin_emulator.WasabiClient.Mixed.{IsPositive, IsSupported}
use coinjoin_emulator.Config.{
  Json, SpendEntry, SpendError, parse_value, parse_all, parse_delay, parse_score, selections,
  first_selection, is_any, both, parse_selection, refuse_if, same_bool, parse_entry,
}

-- A value that is read is positive.
pub IsPositive-parse_value : (j : Option Json) (v : Option ℕ) → parse_value j ≡ ok v → IsPositive v
unfolding parse_value
IsPositive-parse_value j none h = tt
IsPositive-parse_value none (some n) h = absurd (cc h)
IsPositive-parse_value (some Json.null) (some n) h = absurd (cc h)
IsPositive-parse_value (some Json.other) (some n) h = absurd (cc h)
IsPositive-parse_value (some (Json.boolean b)) (some n) h = absurd (cc h)
IsPositive-parse_value (some (Json.text s)) (some n) h = absurd (cc h)
IsPositive-parse_value (some (Json.decimal z)) (some n) h = absurd (cc h)
IsPositive-parse_value (some (Json.integer (negsuc k))) (some n) h = absurd (cc h)
IsPositive-parse_value (some (Json.integer (pos zero))) (some n) h = absurd (cc h)
IsPositive-parse_value (some (Json.integer (pos (suc k)))) (some n) h =
    let same : suc k ≡ n = cc h in omega (arith, same)

-- A selection that the engine's wallets support: JoinMarket's know amounts alone.
abbrev pub IsSelection : Bool → String → Type 0
IsSelection true s = s ≡ "amount"
IsSelection false s = IsSupported s

IsSelection-member :
    (b : Bool) (s : String) → any (λ t. str_eq t s) (selections b) ≡ true → IsSelection b s
unfolding selections
IsSelection-member true s h =
    let e : str_eq "amount" s ≡ true = ground (arith, h) in sym ((eq_iff "amount" s).0 e)
IsSelection-member false s h = elim (Bool-cases (str_eq "amount" s)) [
  | inl e ↦ inl (sym ((eq_iff "amount" s).0 e))
  | inr e ↦
      let other : str_eq "anon_score" s ≡ true = ground (arith, e, h) in
      inr (sym ((eq_iff "anon_score" s).0 other))
]

IsSelection-parse_selection :
    (b : Bool) (j : Option Json) (s : String) → parse_selection b j ≡ ok s → IsSelection b s
unfolding parse_selection first_selection
IsSelection-parse_selection true none s h = cc h
IsSelection-parse_selection false none s h = inr (cc h)
IsSelection-parse_selection b (some Json.null) s h = absurd (cc h)
IsSelection-parse_selection b (some Json.other) s h = absurd (cc h)
IsSelection-parse_selection b (some (Json.boolean x)) s h = absurd (cc h)
IsSelection-parse_selection b (some (Json.integer z)) s h = absurd (cc h)
IsSelection-parse_selection b (some (Json.decimal z)) s h = absurd (cc h)
IsSelection-parse_selection b (some (Json.text t)) s h =
    go (any (λ x. str_eq x t) (selections b)) refl h
  where
    go :
        (r : Bool)
        → any (λ x. str_eq x t) (selections b) ≡ r
        → (if r then ok t else err SpendError.selection_unsupported) ≡ ok s
        → IsSelection b s
    go true e h = let same : t ≡ s = cc h in subst (IsSelection b) same (IsSelection-member b t e)
    go false e h = absurd (cc h)

-- A number that is absent or null in the file, or is this natural number there.
abbrev pub IsRead : Option Json → Option ℕ → Type 0
IsRead j none = (j ≡ none) ⊎ (j ≡ some Json.null)
IsRead j (some n) = j ≡ some (Json.integer (pos n))

IsRead-parse_value : (j : Option Json) (v : Option ℕ) → parse_value j ≡ ok v → IsRead j v
unfolding parse_value
IsRead-parse_value none none h = inl refl
IsRead-parse_value (some Json.null) none h = inr refl
IsRead-parse_value none (some n) h = absurd (cc h)
IsRead-parse_value (some Json.null) (some n) h = absurd (cc h)
IsRead-parse_value (some Json.other) v h = absurd (cc h)
IsRead-parse_value (some (Json.boolean b)) v h = absurd (cc h)
IsRead-parse_value (some (Json.text s)) v h = absurd (cc h)
IsRead-parse_value (some (Json.decimal z)) v h = absurd (cc h)
IsRead-parse_value (some (Json.integer (negsuc k))) v h = absurd (cc h)
IsRead-parse_value (some (Json.integer (pos zero))) v h = absurd (cc h)
IsRead-parse_value (some (Json.integer (pos (suc k)))) none h = absurd (cc h)
IsRead-parse_value (some (Json.integer (pos (suc k)))) (some n) h =
    let same : suc k ≡ n = cc h in ap (λ m. some (Json.integer (pos m))) same

IsRead-parse_delay : (j : Option Json) (v : Option ℕ) → parse_delay j ≡ ok v → IsRead j v
unfolding parse_delay
IsRead-parse_delay none none h = inl refl
IsRead-parse_delay (some Json.null) none h = inr refl
IsRead-parse_delay none (some n) h = absurd (cc h)
IsRead-parse_delay (some Json.null) (some n) h = absurd (cc h)
IsRead-parse_delay (some Json.other) v h = absurd (cc h)
IsRead-parse_delay (some (Json.boolean b)) v h = absurd (cc h)
IsRead-parse_delay (some (Json.text s)) v h = absurd (cc h)
IsRead-parse_delay (some (Json.decimal z)) v h = absurd (cc h)
IsRead-parse_delay (some (Json.integer (negsuc k))) v h = absurd (cc h)
IsRead-parse_delay (some (Json.integer (pos k))) none h = absurd (cc h)
IsRead-parse_delay (some (Json.integer (pos k))) (some n) h =
    let same : k ≡ n = cc h in ap (λ m. some (Json.integer (pos m))) same

-- A score is positive, and a JoinMarket spend has none.
abbrev pub IsScore : Bool → Option ℕ → Type 0
IsScore joinmarket none = Unit
IsScore true (some n) = ⊥
IsScore false (some n) = 0 < n

IsPositive-parse_score : (j : Option Json) (v : Option ℕ) → parse_score j ≡ ok v → IsPositive v
unfolding parse_score
IsPositive-parse_score j none h = tt
IsPositive-parse_score none (some n) h = absurd (cc h)
IsPositive-parse_score (some Json.null) (some n) h = absurd (cc h)
IsPositive-parse_score (some Json.other) (some n) h = absurd (cc h)
IsPositive-parse_score (some (Json.boolean b)) (some n) h = absurd (cc h)
IsPositive-parse_score (some (Json.text s)) (some n) h = absurd (cc h)
IsPositive-parse_score (some (Json.decimal (negsuc k))) (some n) h = absurd (cc h)
IsPositive-parse_score (some (Json.decimal (pos zero))) (some n) h = absurd (cc h)
IsPositive-parse_score (some (Json.decimal (pos (suc k)))) (some n) h =
    let same : suc k ≡ n = cc h in omega (arith, same)
IsPositive-parse_score (some (Json.integer (negsuc k))) (some n) h = absurd (cc h)
IsPositive-parse_score (some (Json.integer (pos zero))) (some n) h = absurd (cc h)
IsPositive-parse_score (some (Json.integer (pos (suc k)))) (some n) h =
    let same : suc k * 100 ≡ n = cc h in omega (arith, same)

IsScore-both :
    (joinmarket : Bool) (v : Option ℕ)
    → both joinmarket (is_some v) ≡ false
    → IsPositive v
    → IsScore joinmarket v
IsScore-both joinmarket none h p = tt
IsScore-both true (some n) h p = absurd (cc h)
IsScore-both false (some n) h p = p

refuse-passed : (b : Bool) (e : SpendError) (u : Unit {0}) → refuse_if b e ≡ ok u → b ≡ false
unfolding refuse_if
refuse-passed true e u h = absurd (cc h)
refuse-passed false e u h = refl

exactly_one : (v : Option ℕ) (all : Bool) → same_bool (is_some v) all ≡ false → is_some v ≡ not all
exactly_one none true h = refl
exactly_one none false h = absurd (cc h)
exactly_one (some n) true h = absurd (cc h)
exactly_one (some n) false h = refl

-- A spend of an engine by its entry: a value or all coins, a positive value, the value and the delays as
-- they stand there, and a score and a selection that the engine's wallets support.
pub record IsValid (joinmarket : Bool) (e : SpendEntry) (c : PostmixSpendConfig) : Type 0 where
  pub value_or_all : is_some c.config_value ≡ not c.config_all
  pub positive : IsPositive c.config_value
  pub value_there : IsRead e.value c.config_value
  pub blocks_there : IsRead e.delay_blocks c.config_delay_blocks
  pub rounds_there : IsRead e.delay_rounds c.config_delay_rounds
  pub scored : IsScore joinmarket c.config_min_anon_score
  pub supported : IsSelection joinmarket c.config_coin_selection

-- Every spend that the parser accepts has exactly one of a value and all coins, a value above 0, and
-- the value and the delays of its entry; a JoinMarket spend has no score and selects by amount, and a
-- Wasabi spend has a score above 0, if any, and a selection by amount or by score.
pub parse_entry-IsValid :
    (joinmarket : Bool) (e : SpendEntry) (c : PostmixSpendConfig)
    → parse_entry joinmarket e ≡ ok c
    → IsValid joinmarket e c
unfolding parse_entry
parse_entry-IsValid joinmarket e c h =
    let (u1, e1, h1) = bind-eq-ok _ (refuse_if (is_any e.unknown) SpendError.unknown_fields) h in
    let (all, e2, h2) = bind-eq-ok _ (parse_all e.all) h1 in
    let (value, e3, h3) = bind-eq-ok _ (parse_value e.value) h2 in
    let (u4, e4, h4) =
      bind-eq-ok _ (refuse_if (same_bool (is_some value) all) SpendError.not_exactly_one) h3 in
    let (blocks, e5, h5) = bind-eq-ok _ (parse_delay e.delay_blocks) h4 in
    let (rounds, e6, h6) = bind-eq-ok _ (parse_delay e.delay_rounds) h5 in
    let (score, e7, h7) = bind-eq-ok _ (parse_score e.min_anon_score) h6 in
    let (u8, e8, h8) =
      bind-eq-ok _ (refuse_if (both joinmarket (is_some score)) SpendError.score_on_joinmarket)
        h7 in
    let (selection, e9, h9) = bind-eq-ok _ (parse_selection joinmarket e.coin_selection) h8 in
    let made : PostmixSpendConfig = record {
      config_value = value;
      config_all = all;
      config_delay_blocks = blocks;
      config_delay_rounds = rounds;
      config_min_anon_score = score;
      config_coin_selection = selection;
    } in
    let same : made ≡ c = cc h9 in
    subst (IsValid joinmarket e) same (record {
      value_or_all = exactly_one value all (refuse-passed _ _ u4 e4);
      positive = IsPositive-parse_value e.value value e3;
      value_there = IsRead-parse_value e.value value e3;
      blocks_there = IsRead-parse_delay e.delay_blocks blocks e5;
      rounds_there = IsRead-parse_delay e.delay_rounds rounds e6;
      scored =
          IsScore-both joinmarket score (refuse-passed _ _ u8 e8)
            (IsPositive-parse_score e.min_anon_score score e7);
      supported = IsSelection-parse_selection joinmarket e.coin_selection selection e9;
    })
