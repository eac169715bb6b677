-- ===== src/Config/Wallets/RoundTrip.antt =====
-- The round trip of a wallet: what `to_dict` writes is read back.
use coinjoin_emulator.Base.{
  ℕ, zero, suc, ◌+◌, ◌≡◌, refl, sym, ◌∙◌, ap, subst, Bool, true, false, String, Option, none, some,
  List, [], ◌∷◌, ◌||◌, map, is_some, Result, ok, err, bind-eq-ok, ok-inj, some-inj, Bool-cases, inl,
  inr, arith,
}
use coinjoin_emulator.Base.Int.{pos, negsuc}
use coinjoin_emulator.PostmixSpends.{PostmixSpendConfig}
use coinjoin_emulator.Config.{Json, SpendEntry, SpendError, parse_entry, parse_postmix_spend}
use coinjoin_emulator.Config.Wallets.{
  FundEntry, FundOf, amount, configured, passed_on, SpendsEntry, no_list, list, WasabiEntry,
  JoinMarketEntry, WalletEntry, JoinMarketRole, maker, taker, JoinMarketConfig, WalletConfig,
  WalletError, flat_wasabi_settings, flat_joinmarket_settings, refuse_when, name_spend,
  parse_spends_from, some_spends, parse_postmix_spends, parse_timeout, role_named, parse_role,
  parse_fund, parse_funds, wasabi_config, any_joinmarket, joinmarket_config, parse_wallet,
  number_or_null, spend_entry, spends_entry, role_entry, fund_entry, wasabi_entry, joinmarket_entry,
  wallet_entry,
}
use coinjoin_emulator.Config.Wallets.Again.{entry-again}

named-again :
    (b : Bool) (i k : ℕ) (e : Option SpendEntry) (c : PostmixSpendConfig)
    → name_spend i (parse_postmix_spend b e) ≡ ok c
    → name_spend k (parse_postmix_spend b (some (spend_entry c))) ≡ ok c
unfolding name_spend parse_postmix_spend
named-again b i k none c h = absurd (cc h)
named-again b i k (some e) c h = go (parse_entry b e) refl h
  where
    go :
        (r : Result SpendError PostmixSpendConfig)
        → parse_entry b e ≡ r
        → name_spend i r ≡ ok c
        → name_spend k (parse_entry b (spend_entry c)) ≡ ok c
    go (err x) q g = absurd (cc g)
    go (ok d) q g = ap (name_spend k) (entry-again b e c (q ∙ ap (λ x. ok x) (ok-inj g)))

list-again :
    (b : Bool) (i k : ℕ) (es : List (Option SpendEntry)) (cs : List PostmixSpendConfig)
    → parse_spends_from b i es ≡ ok cs
    → parse_spends_from b k (map (λ c. some (spend_entry c)) cs) ≡ ok cs
unfolding parse_spends_from
list-again b i k [] cs h =
    subst (λ l. parse_spends_from b k (map (λ c. some (spend_entry c)) l) ≡ ok l) (ok-inj h) refl
list-again b i k (e ∷ es) cs h =
    let (c, e1, h1) = bind-eq-ok _ (name_spend i (parse_postmix_spend b e)) h in
    let (ds, e2, h2) = bind-eq-ok _ (parse_spends_from b (i + 1) es) h1 in
    subst (λ l. parse_spends_from b k (map (λ x. some (spend_entry x)) l) ≡ ok l) (ok-inj h2)
      (rw (named-again b i k e c e1, list-again b (i + 1) (k + 1) es ds e2) refl)

spends-again :
    (b : Bool) (j : Option SpendsEntry) (v : Option (List PostmixSpendConfig))
    → parse_postmix_spends b j ≡ ok v
    → parse_postmix_spends b (spends_entry v) ≡ ok v
unfolding parse_postmix_spends spends_entry some_spends
spends-again b j none h = refl
spends-again b none (some cs) h = absurd (cc h)
spends-again b (some no_list) (some cs) h = absurd (cc h)
spends-again b (some (list es)) (some cs) h = go (parse_spends_from b 0 es) refl h
  where
    go :
        (r : Result WalletError (List PostmixSpendConfig))
        → parse_spends_from b 0 es ≡ r
        → some_spends r ≡ ok (some cs)
        → some_spends (parse_spends_from b 0 (map (λ c. some (spend_entry c)) cs)) ≡ ok (some cs)
    go (err x) q g = absurd (cc g)
    go (ok ds) q g =
        ap some_spends (list-again b 0 0 es cs (q ∙ ap (λ x. ok x) (some-inj (ok-inj g))))

timeout-again :
    (j : Option Json) (v : Option ℕ)
    → parse_timeout j ≡ ok v
    → parse_timeout (some (number_or_null v)) ≡ ok v
unfolding parse_timeout number_or_null
timeout-again j none h = refl
timeout-again j (some (suc n)) h = refl
timeout-again none (some zero) h = absurd (cc h)
timeout-again (some Json.null) (some zero) h = absurd (cc h)
timeout-again (some Json.other) (some zero) h = absurd (cc h)
timeout-again (some (Json.boolean x)) (some zero) h = absurd (cc h)
timeout-again (some (Json.text x)) (some zero) h = absurd (cc h)
timeout-again (some (Json.decimal x)) (some zero) h = absurd (cc h)
timeout-again (some (Json.integer (negsuc k))) (some zero) h = absurd (cc h)
timeout-again (some (Json.integer (pos zero))) (some zero) h = absurd (cc h)
timeout-again (some (Json.integer (pos (suc k)))) (some zero) h =
    absurd (omega (arith, some-inj (ok-inj h)))

role-again : (r : Option JoinMarketRole) → parse_role (role_entry r) ≡ ok r
unfolding parse_role role_entry role_named
role-again none = refl
role-again (some maker) = refl
role-again (some taker) = refl

role-some :
    (j : Option String) (r : Option JoinMarketRole)
    → parse_role j ≡ ok r
    → is_some (role_entry r) ≡ is_some j
unfolding parse_role role_entry role_named
role-some none none h = refl
role-some none (some r) h = absurd (cc h)
role-some (some s) none h = absurd (ground (arith, h))
role-some (some s) (some maker) h = refl
role-some (some s) (some taker) h = refl

is_some-entry : (r : Option JoinMarketRole) → is_some (role_entry r) ≡ is_some r
unfolding role_entry
is_some-entry none = refl
is_some-entry (some maker) = refl
is_some-entry (some taker) = refl

is_some-none : {A : Type 0} (v : Option A) → is_some v ≡ false → v ≡ none
is_some-none none h = refl
is_some-none (some cs) h = absurd (cc h)

module _ {J : Type 0} where
  fund-again :
      (f : FundEntry J) (x : FundOf J) → parse_fund f ≡ ok x → parse_fund (fund_entry x) ≡ ok x
  unfolding parse_fund fund_entry
  fund-again f (amount n) h = refl
  fund-again f (configured v b r) h = refl
  fund-again f (passed_on j) h = refl

  funds-again :
      (fs : List (FundEntry J)) (xs : List (FundOf J))
      → parse_funds fs ≡ ok xs
      → parse_funds (map fund_entry xs) ≡ ok xs
  unfolding parse_funds
  funds-again [] xs h = subst (λ l. parse_funds (map fund_entry l) ≡ ok l) (ok-inj h) refl
  funds-again (f ∷ fs) xs h =
      let (x, e1, h1) = bind-eq-ok _ (parse_fund f) h in
      let (ys, e2, h2) = bind-eq-ok _ (parse_funds fs) h1 in
      subst (λ l. parse_funds (map fund_entry l) ≡ ok l) (ok-inj h2)
        (rw (fund-again f x e1, funds-again fs ys e2) refl)

  -- The settings that were read, as they are written: the same spends, and the same settings.
  wasabi-again :
      (e : WasabiEntry J) (v : Option (List PostmixSpendConfig))
      → ((wasabi_entry (wasabi_config e v)).wasabi_spends ≡ spends_entry v)
        × (wasabi_config (wasabi_entry (wasabi_config e v)) v ≡ wasabi_config e v)
  unfolding wasabi_config wasabi_entry
  wasabi-again e v =
      elim (Bool-cases (
        is_some e.anon_score_target
        || (is_some e.redcoin_isolation || (is_some e.skip_rounds || is_some v)))) [
          | inl here ↦ rw here (refl, rw here refl)
          | inr empty ↦
              let nothing : v ≡ none = is_some-none v (ground (arith, empty)) in
              rw empty (rw nothing (refl, refl))
        ]

  -- The same of the JoinMarket settings, with the timeout and the role.
  record JoinMarketAgain (c : Option (JoinMarketConfig J)) (t : Option ℕ)
      (v : Option (List PostmixSpendConfig)) (r : Option JoinMarketRole) : Type 0 where
    spends_same : (joinmarket_entry c).joinmarket_spends ≡ spends_entry v
    timeout_same : parse_timeout (joinmarket_entry c).coinjoin_timeout_blocks ≡ ok t
    role_same : parse_role (joinmarket_entry c).role ≡ ok r
    config_same : joinmarket_config (joinmarket_entry c) t v r ≡ c

  joinmarket-again :
      (e : JoinMarketEntry J) (t : Option ℕ) (v : Option (List PostmixSpendConfig))
      (r : Option JoinMarketRole)
      → parse_timeout e.coinjoin_timeout_blocks ≡ ok t
      → parse_role e.role ≡ ok r
      → JoinMarketAgain (joinmarket_config e t v r) t v r
  unfolding joinmarket_config joinmarket_entry any_joinmarket spends_entry parse_timeout parse_role
  joinmarket-again e t v r ht hr = elim (Bool-cases (any_joinmarket e t v)) [
    | inl here ↦ rw here (record {
      spends_same = refl;
      timeout_same = timeout-again e.coinjoin_timeout_blocks t ht;
      role_same = role-again r;
      config_same = rw (role-some e.role r hr, here) refl;
    })
    | inr empty ↦
        let no_timeout : t ≡ none = is_some-none t (ground (arith, empty)) in
        let no_spends : v ≡ none = is_some-none v (ground (arith, empty)) in
        let no_role : r ≡ none =
          is_some-none r
            (sym (is_some-entry r) ∙ role-some e.role r hr ∙ (ground (arith, empty))) in
        rw empty (record {
          spends_same = rw no_spends refl;
          timeout_same = rw no_timeout refl;
          role_same = rw no_role refl;
          config_same = rw (no_timeout, no_spends) refl;
        })
  ]

  -- A wallet whose parts are read back.
  wallet-again :
      (w : WalletConfig J) (wasabi_list joinmarket_list : Option (List PostmixSpendConfig))
      (timeout : Option ℕ) (r : Option JoinMarketRole)
      → parse_funds (map fund_entry w.config_funds) ≡ ok w.config_funds
      → parse_postmix_spends false (wasabi_entry w.config_wasabi).wasabi_spends ≡ ok wasabi_list
      → wasabi_config (wasabi_entry w.config_wasabi) wasabi_list ≡ w.config_wasabi
      → parse_postmix_spends true (joinmarket_entry w.config_joinmarket).joinmarket_spends
        ≡ ok joinmarket_list
      → JoinMarketAgain w.config_joinmarket timeout joinmarket_list r
      → parse_wallet (wallet_entry w) ≡ ok w
  unfolding parse_wallet wallet_entry refuse_when
  wallet-again w wasabi_list joinmarket_list timeout r hf hw cw hj a =
      let ht = a.timeout_same in
      let hr = a.role_same in let cj = a.config_same in rw (hf, hw, hj, ht, hr, cw, cj) refl

  -- Every wallet that the parser accepts is read back from what `to_dict` writes of it, unchanged.
  pub parse_wallet-wallet_entry :
      (e : WalletEntry J) (w : WalletConfig J)
      → parse_wallet e ≡ ok w
      → parse_wallet (wallet_entry w) ≡ ok w
  unfolding parse_wallet
  parse_wallet-wallet_entry e w h =
      let (funds, e1, h1) = bind-eq-ok _ (parse_funds e.funds) h in
      let (u2, e2, h2) = bind-eq-ok _ (refuse_when e.flat_wasabi flat_wasabi_settings) h1 in
      let (ws, e3, h3) = bind-eq-ok _ (parse_postmix_spends false e.wasabi.wasabi_spends) h2 in
      let (u4, e4, h4) = bind-eq-ok _ (refuse_when e.flat_joinmarket flat_joinmarket_settings) h3 in
      let (js, e5, h5) =
        bind-eq-ok _ (parse_postmix_spends true e.joinmarket.joinmarket_spends) h4 in
      let (t, e6, h6) = bind-eq-ok _ (parse_timeout e.joinmarket.coinjoin_timeout_blocks) h5 in
      let (r, e7, h7) = bind-eq-ok _ (parse_role e.joinmarket.role) h6 in
      let (ww, wc) = wasabi-again e.wasabi ws in
      let ja = joinmarket-again e.joinmarket t js r e6 e7 in
      let made : WalletConfig J = record {
        config_funds = funds;
        config_start_blocks = e.delay_blocks;
        config_start_rounds = e.delay_rounds;
        config_stop_blocks = e.stop_blocks;
        config_stop_rounds = e.stop_rounds;
        config_version = e.version;
        config_wasabi = wasabi_config e.wasabi ws;
        config_joinmarket = joinmarket_config e.joinmarket t js r;
      } in
      subst (λ x. parse_wallet (wallet_entry x) ≡ ok x) (ok-inj h7)
        (wallet-again made ws js t r (funds-again e.funds funds e1)
          (ap (parse_postmix_spends false) ww ∙ spends-again false e.wasabi.wasabi_spends ws e3) wc
          (ap (parse_postmix_spends true) ja.spends_same
            ∙ spends-again true e.joinmarket.joinmarket_spends js e5)
          ja)
