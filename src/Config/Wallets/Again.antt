-- ===== src/Config/Wallets/Again.antt =====
-- What `to_dict` writes of a parsed wallet is read back as that wallet.
use coinjoin_emulator.Base.{
  ℕ, zero, suc, ◌≡◌, refl, subst, Bool, true, false, String, Option, none, some, any, str_eq,
  is_some, ok, bind-eq-ok, Bool-cases, inl, inr, arith, some-inj, ok-inj,
}
use coinjoin_emulator.Base.Int.{pos, negsuc}
use coinjoin_emulator.PostmixSpends.{PostmixSpendConfig}
use coinjoin_emulator.Config.{
  Json, SpendEntry, SpendError, parse_value, parse_all, parse_delay, parse_score, selections,
  first_selection, parse_selection, refuse_if, same_bool, is_any, both, parse_entry,
}
use coinjoin_emulator.Config.Spends.{IsPositive-parse_value}
use coinjoin_emulator.Config.Wallets.{number_or_null, score_or_null, spend_entry}

value-again :
    (j : Option Json) (v : Option ℕ)
    → parse_value j ≡ ok v
    → parse_value (some (number_or_null v)) ≡ ok v
unfolding parse_value number_or_null
value-again j none h = refl
value-again j (some zero) h = absurd (omega (arith, IsPositive-parse_value j (some zero) h))
value-again j (some (suc n)) h = refl

delay-again : (v : Option ℕ) → parse_delay (some (number_or_null v)) ≡ ok v
unfolding parse_delay number_or_null
delay-again none = refl
delay-again (some n) = refl

score-again :
    (j : Option Json) (v : Option ℕ)
    → parse_score j ≡ ok v
    → parse_score (some (score_or_null v)) ≡ ok v
unfolding parse_score score_or_null
score-again j none h = refl
score-again none (some n) h = absurd (cc h)
score-again (some Json.null) (some n) h = absurd (cc h)
score-again (some Json.other) (some n) h = absurd (cc h)
score-again (some (Json.boolean b)) (some n) h = absurd (cc h)
score-again (some (Json.text s)) (some n) h = absurd (cc h)
score-again (some (Json.decimal (negsuc k))) (some n) h = absurd (cc h)
score-again (some (Json.integer (negsuc k))) (some n) h = absurd (cc h)
score-again (some (Json.decimal (pos zero))) (some n) h = absurd (cc h)
score-again (some (Json.integer (pos zero))) (some n) h = absurd (cc h)
score-again (some (Json.decimal (pos (suc k)))) (some zero) h =
    absurd (omega (arith, some-inj (ok-inj h)))
score-again (some (Json.integer (pos (suc k)))) (some zero) h =
    absurd (omega (arith, some-inj (ok-inj h)))
score-again (some (Json.decimal (pos (suc k)))) (some (suc n)) h = refl
score-again (some (Json.integer (pos (suc k)))) (some (suc n)) h = refl

selection-again :
    (b : Bool) (j : Option Json) (s : String)
    → parse_selection b j ≡ ok s
    → parse_selection b (some (Json.text s)) ≡ ok s
unfolding parse_selection first_selection
selection-again true none s h =
    subst (λ x. parse_selection true (some (Json.text x)) ≡ ok x) (ok-inj h) refl
selection-again false none s h =
    subst (λ x. parse_selection false (some (Json.text x)) ≡ ok x) (ok-inj h) refl
selection-again b (some Json.null) s h = absurd (cc h)
selection-again b (some Json.other) s h = absurd (cc h)
selection-again b (some (Json.boolean x)) s h = absurd (cc h)
selection-again b (some (Json.integer z)) s h = absurd (cc h)
selection-again b (some (Json.decimal z)) s h = absurd (cc h)
selection-again b (some (Json.text t)) s h =
    elim (Bool-cases (any (λ x. str_eq x t) (selections b))) [
      | inl known ↦
          let same : t ≡ s = ok-inj (rw known at h) in
          subst (λ x. parse_selection b (some (Json.text x)) ≡ ok s) same h
      | inr unknown ↦ absurd (cc (rw unknown at h))
    ]

-- The checks pass on what is written of values that passed them.
checks-again :
    (b : Bool) (c : PostmixSpendConfig) (u v : Unit {0})
    → parse_value (some (number_or_null c.config_value)) ≡ ok c.config_value
    → refuse_if (same_bool (is_some c.config_value) c.config_all) SpendError.not_exactly_one ≡ ok u
    → parse_score (some (score_or_null c.config_min_anon_score)) ≡ ok c.config_min_anon_score
    → refuse_if (both b (is_some c.config_min_anon_score)) SpendError.score_on_joinmarket ≡ ok v
    → parse_selection b (some (Json.text c.config_coin_selection)) ≡ ok c.config_coin_selection
    → parse_entry b (spend_entry c) ≡ ok c
unfolding parse_entry spend_entry parse_all
checks-again b c u v h1 h2 h3 h4 h5 =
    let d1 = delay-again c.config_delay_blocks in
    let d2 = delay-again c.config_delay_rounds in rw (h1, h2, d1, d2, h3, h4, h5) refl

-- A spend that was accepted is accepted as it is written, and is the same.
pub entry-again :
    (b : Bool) (e : SpendEntry) (c : PostmixSpendConfig)
    → parse_entry b e ≡ ok c
    → parse_entry b (spend_entry c) ≡ ok c
unfolding parse_entry
entry-again b e c h =
    let (u1, e1, h1) = bind-eq-ok _ (refuse_if (is_any e.unknown) SpendError.unknown_fields) h in
    let (all, e2, h2) = bind-eq-ok _ (parse_all e.all) h1 in
    let (value, e3, h3) = bind-eq-ok _ (parse_value e.value) h2 in
    let (u4, e4, h4) =
      bind-eq-ok _ (refuse_if (same_bool (is_some value) all) SpendError.not_exactly_one) h3 in
    let (blocks, e5, h5) = bind-eq-ok _ (parse_delay e.delay_blocks) h4 in
    let (rounds, e6, h6) = bind-eq-ok _ (parse_delay e.delay_rounds) h5 in
    let (score, e7, h7) = bind-eq-ok _ (parse_score e.min_anon_score) h6 in
    let (u8, e8, h8) =
      bind-eq-ok _ (refuse_if (both b (is_some score)) SpendError.score_on_joinmarket) h7 in
    let (selection, e9, h9) = bind-eq-ok _ (parse_selection b e.coin_selection) h8 in
    let made : PostmixSpendConfig = record {
      config_value = value;
      config_all = all;
      config_delay_blocks = blocks;
      config_delay_rounds = rounds;
      config_min_anon_score = score;
      config_coin_selection = selection;
    } in
    let same : made ≡ c = ok-inj h9 in
    subst (λ x. parse_entry b (spend_entry x) ≡ ok x) same
      (checks-again b made u4 u8 (value-again e.value value e3) e4
        (score-again e.min_anon_score score e7) e8
        (selection-again b e.coin_selection selection e9))
