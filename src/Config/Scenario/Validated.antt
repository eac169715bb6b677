-- ===== src/Config/Scenario/Validated.antt =====
-- What `validate_for_engine` accepts of a JoinMarket scenario, by the clients that it will start.
use coinjoin_emulator.Base.{
  ℕ, ◌+◌, ◌<◌, ◌≡◌, ◌↔◌, refl, ◌∙◌, ap, Bool, true, false, not, ◌&&◌, Option, none, some, List, [],
  ◌∷◌, ltb, ◌==◌, is_some, any, All, arith, Bool-cases, inl, inr, ok, bind-eq-ok,
}
use coinjoin_emulator.Config.Wallets.{WalletConfig, JoinMarketRole, maker, taker}
use coinjoin_emulator.Config.Scenario.{
  ScenarioConfig, EngineError, wasabi_settings, missing_roles, tumbler_without_blocks, indexes_from,
  refuse_indexes, refuse_if_set, role_of, is_taker, has_tumbler_options, is_tumbler,
  validate_joinmarket, ClientClass, tumbler_taker_client, class_of, client_class,
}

-- Whether a class counts its own rounds.
abbrev pub counts_rounds : ClientClass → Bool
counts_rounds tumbler_taker_client = false
counts_rounds _ = true

indexes-none :
    {A : Type 0} (i : ℕ) (p : A → Bool) (xs : List A)
    → indexes_from i p xs ≡ []
    → All (λ x. p x ≡ false) xs
unfolding indexes_from
indexes-none i p [] h = tt
indexes-none i p (x ∷ xs) h = elim (Bool-cases (p x)) [
  | inl yes_x ↦ absurd (cc (rw yes_x at h))
  | inr no_x ↦ (no_x, indexes-none (i + 1) p xs (rw no_x at h))
]

none-indexes :
    {A : Type 0} (i : ℕ) (p : A → Bool) (xs : List A)
    → All (λ x. p x ≡ false) xs
    → indexes_from i p xs ≡ []
unfolding indexes_from
none-indexes i p [] h = refl
none-indexes i p (x ∷ xs) h = rw (h.0) (none-indexes (i + 1) p xs h.1)

refused-none :
    (e : List ℕ → EngineError) (is : List ℕ) (u : Unit {0}) → refuse_indexes e is ≡ ok u → is ≡ []
unfolding refuse_indexes
refused-none e [] u h = refl
refused-none e (i ∷ is) u h = absurd (cc h)

unset : (b : Bool) (e : EngineError) (u : Unit {0}) → refuse_if_set b e ≡ ok u → b ≡ false
unfolding refuse_if_set
unset true e u h = absurd (cc h)
unset false e u h = refl

any-none : {A : Type 0} (p : A → Bool) (xs : List A) → any p xs ≡ false → All (λ x. p x ≡ false) xs
any-none p [] h = tt
any-none p (x ∷ xs) h = (ground (arith, h), any-none p xs (ground (arith, h)))

none-any : {A : Type 0} (p : A → Bool) (xs : List A) → All (λ x. p x ≡ false) xs → any p xs ≡ false
none-any p [] h = refl
none-any p (x ∷ xs) h = ground (arith, h.0, none-any p xs h.1)

class-tumbler :
    (r : Option JoinMarketRole) (b : Bool) → counts_rounds (class_of r b) ≡ not (is_taker r && b)
unfolding class_of is_taker
class-tumbler none b = refl
class-tumbler (some maker) b = refl
class-tumbler (some taker) true = refl
class-tumbler (some taker) false = refl

module _ {J : Type 0} (truthy : J → Bool) where
  -- No Wasabi settings, a role for each wallet, and only clients whose rounds are counted where the
  -- rounds are the run's one limit.
  pub record IsRunnable (s : ScenarioConfig J) : Type 0 where
    pub no_wasabi : All (λ w. is_some w.config_wasabi ≡ false) s.scenario_wallets
    pub roles : All (λ w. not (is_some (role_of w.config_joinmarket)) ≡ false) s.scenario_wallets
    pub counted :
        0 < s.scenario_rounds
        → s.scenario_blocks ≡ 0
        → All (λ w. counts_rounds (client_class truthy w) ≡ true) s.scenario_wallets

  counts-tumbler :
      (ws : List (WalletConfig J))
      → All (λ w. is_tumbler truthy w ≡ false) ws
      → All (λ w. counts_rounds (client_class truthy w) ≡ true) ws
  unfolding is_tumbler client_class
  counts-tumbler [] h = tt
  counts-tumbler (w ∷ ws) h =
      let same =
        class-tumbler (role_of w.config_joinmarket)
          (has_tumbler_options truthy w.config_joinmarket) in
      (same ∙ ap not (h.0), counts-tumbler ws h.1)

  tumbler-counts :
      (ws : List (WalletConfig J))
      → All (λ w. counts_rounds (client_class truthy w) ≡ true) ws
      → All (λ w. is_tumbler truthy w ≡ false) ws
  unfolding is_tumbler client_class
  tumbler-counts [] h = tt
  tumbler-counts (w ∷ ws) h =
      let same =
        class-tumbler (role_of w.config_joinmarket)
          (has_tumbler_options truthy w.config_joinmarket) in
      (ground (arith, h.0, same), tumbler-counts ws h.1)

  accepted-IsRunnable : (s : ScenarioConfig J) → validate_joinmarket truthy s ≡ ok tt → IsRunnable s
  unfolding validate_joinmarket
  accepted-IsRunnable s h =
      let ws = s.scenario_wallets in
      let tumbling = any (is_tumbler truthy) ws in
      let (u1, e1, h1) =
        bind-eq-ok _
          (refuse_indexes wasabi_settings (indexes_from 0 (λ w. is_some w.config_wasabi) ws)) h in
      let (u2, e2, h2) =
        bind-eq-ok _
          (refuse_indexes missing_roles
            (indexes_from 0 (λ w. not (is_some (role_of w.config_joinmarket))) ws))
          h1 in
      let free = unset _ tumbler_without_blocks tt h2 in
      record {
        no_wasabi =
            indexes-none 0 (λ w. is_some w.config_wasabi) ws (refused-none wasabi_settings _ u1 e1);
        roles =
            indexes-none 0 (λ w. not (is_some (role_of w.config_joinmarket))) ws
              (refused-none missing_roles _ u2 e2);
        counted = λ limited unlimited.
            counts-tumbler ws
              (any-none (is_tumbler truthy) ws (ground (arith, limited, unlimited, free)));
      }

  uncounted :
      (s : ScenarioConfig J)
      → IsRunnable s
      → (ltb 0 s.scenario_rounds
          && (s.scenario_blocks == 0 && any (is_tumbler truthy) s.scenario_wallets))
        ≡ false
  uncounted s r =
      let ws = s.scenario_wallets in
      elim (Bool-cases (ltb 0 s.scenario_rounds && s.scenario_blocks == 0)) [
        | inl only_rounds ↦
            let all = r.counted (ground (arith, only_rounds)) (ground (arith, only_rounds)) in
            ground (arith, none-any (is_tumbler truthy) ws (tumbler-counts ws all))
        | inr other ↦ ground (arith, other)
      ]

  accepts : (s : ScenarioConfig J) → IsRunnable s → validate_joinmarket truthy s ≡ ok tt
  unfolding validate_joinmarket refuse_indexes refuse_if_set
  accepts s r =
      let ws = s.scenario_wallets in
      let e1 = none-indexes 0 (λ w. is_some w.config_wasabi) ws r.no_wasabi in
      let e2 = none-indexes 0 (λ w. not (is_some (role_of w.config_joinmarket))) ws r.roles in
      let free = uncounted s r in rw (e1, e2, free) refl

  -- The validation for the JoinMarket engine returns exactly for the scenarios that are runnable.
  pub validate_joinmarket_iff :
      (s : ScenarioConfig J) → (validate_joinmarket truthy s ≡ ok tt) ↔ IsRunnable s
  validate_joinmarket_iff s = (accepted-IsRunnable s, accepts s)
