-- ===== src/Mixdepths/Thawed.antt =====
-- A sweep whose unfreezing returns leaves the wallet's frozen coins as they were.
use coinjoin_emulator.Base.{
  ℕ, ◌≡◌, refl, ◌∙◌, ap, Bool, true, false, String, List, [], ◌∷◌, eq_iff, Result, ok, err, arith,
  All, sym, Bool-cases, inl, inr,
}
use coinjoin_emulator.PostmixSpends.{Call, then_call}
use coinjoin_emulator.Mixdepths.{JoinMarketCoin}
use coinjoin_emulator.Mixdepths.Sweep.{
  Outpoint, same_outpoint, outpoint, is_among, JoinMarketWallet, to_freeze, swept, freeze_each,
  finally_then, pay_frozen, sweep,
}

-- jmwalletd as documented: a freeze that returns sets the flag of its coin, no freeze changes the flag of
-- another coin, and a payment leaves the flags as they are. A freeze may raise.
pub record Documented {W : Type 0} (wallet : JoinMarketWallet W) (frozen : W → Outpoint → Bool)
    : Type 0 where
  pub freeze_sets :
      (u : Outpoint) (b : Bool) (w : W)
      → (wallet.freeze_utxo u b w).0 ≡ ok tt
      → frozen (wallet.freeze_utxo u b w).1 u ≡ b
  pub freeze_others :
      (u v : Outpoint) (b : Bool) (w : W)
      → same_outpoint u v ≡ false
      → frozen (wallet.freeze_utxo u b w).1 v ≡ frozen w v
  pub sweep_keeps :
      (destination : String) (depth : ℕ) (v : Outpoint) (w : W)
      → frozen (wallet.sweep_mixdepth destination depth w).1 v ≡ frozen w v

same_outpoint-eq : (u v : Outpoint) → same_outpoint u v ≡ true → u ≡ v
unfolding same_outpoint
same_outpoint-eq u v h = ground (arith, eq_iff u.0 v.0)

module _ {W : Type 0} (wallet : JoinMarketWallet W) (frozen : W → Outpoint → Bool)
    (d : Documented wallet frozen) where
  -- A coin that is not among those of a call has the flag that it had, if each call keeps it.
  then_call-keeps :
      {A B : Type 0} (r : Result String A × W) (next : A → Call W B) (v : Outpoint) (b : Bool)
      → frozen r.1 v ≡ b
      → ((a : A) (w : W) → frozen w v ≡ b → frozen (next a w).1 v ≡ b)
      → frozen (then_call r next).1 v ≡ b
  then_call-keeps (ok a, w) next v b h step = step a w h
  then_call-keeps (err e, w) next v b h step = h

  freeze_each-others :
      (b was : Bool) (us : List Outpoint) (w : W) (v : Outpoint)
      → is_among us v ≡ false
      → frozen w v ≡ was
      → frozen (freeze_each wallet b us w).1 v ≡ was
  unfolding freeze_each is_among
  freeze_each-others b was [] w v h same = same
  freeze_each-others b was (u ∷ us) w v h same =
      let apart : same_outpoint u v ≡ false = ground (arith, h) in
      let rest : is_among us v ≡ false = ground (arith, h, is_among) in
      then_call-keeps (wallet.freeze_utxo u b w) (λ _. freeze_each wallet b us) v was
        (d.freeze_others u v b w apart ∙ same) (λ _ w1 k. freeze_each-others b was us w1 v rest k)

  -- What each call after the first keeps, it has when all of them returned.
  returned-then :
      {A B : Type 0} (r : Result String A × W) (next : A → Call W B) (b : B)
      → (then_call r next).0 ≡ ok b
      → (a : A) × (r.0 ≡ ok a) × (then_call r next ≡ next a r.1)
  returned-then (ok a, w) next b h = (a, refl, refl)
  returned-then (err e, w) next b h = absurd (cc h)

  freeze_each-sets :
      (b : Bool) (us : List Outpoint) (w : W) (v : Outpoint)
      → (freeze_each wallet b us w).0 ≡ ok tt
      → is_among us v ≡ true
      → frozen (freeze_each wallet b us w).1 v ≡ b
  unfolding freeze_each is_among
  freeze_each-sets b [] w v done h = absurd (cc h)
  freeze_each-sets b (u ∷ us) w v done h =
      let next = λ (x : Unit {0}). freeze_each wallet b us in
      let (a, here, same) = returned-then (wallet.freeze_utxo u b w) next tt done in
      let w1 = (wallet.freeze_utxo u b w).1 in
      let rest : (freeze_each wallet b us w1).0 ≡ ok tt = sym (ap (λ r. r.0) same) ∙ done in
      ap (λ r. frozen r.1 v) same ∙ elim (Bool-cases (is_among us v)) [
        | inl more ↦ freeze_each-sets b us w1 v rest more
        | inr last ↦
            let this : same_outpoint u v ≡ true = ground (arith, h, last) in
            let set : frozen w1 v ≡ b =
              ap (frozen w1) (sym (same_outpoint-eq u v this)) ∙ d.freeze_sets u b w here in
            freeze_each-others b b us w1 v last set
      ]

  -- The world after the payment, or after the freeze that raised.
  abbrev pub payment_world : List Outpoint → String → ℕ → W → W
  payment_world us destination depth w =
      (then_call (freeze_each wallet true us w) (λ _. wallet.sweep_mixdepth destination depth)).1

  world-finally_then :
      {A : Type 0} (r : Result String A) (f : Result String (Unit {0}) × W)
      → (finally_then wallet r f).1 ≡ f.1
  world-finally_then r (ok x, w) = refl
  world-finally_then r (err e, w) = refl

  frozen-pay_frozen :
      (us : List Outpoint) (destination : String) (depth : ℕ) (w : W) (v : Outpoint)
      → (freeze_each wallet false us (payment_world us destination depth w)).0 ≡ ok tt
      → (is_among us v ≡ true → frozen w v ≡ false)
      → frozen (pay_frozen wallet us destination depth w).1 v ≡ frozen w v
  unfolding pay_frozen
  frozen-pay_frozen us destination depth w v thawing thawed =
      let tried =
        then_call (freeze_each wallet true us w) (λ _. wallet.sweep_mixdepth destination depth) in
      ap (λ x. frozen x v) (world-finally_then tried.0 (freeze_each wallet false us tried.1))
      ∙ elim (Bool-cases (is_among us v)) [
        | inl among ↦ freeze_each-sets false us tried.1 v thawing among ∙ sym (thawed among)
        | inr apart ↦ freeze_each-others false (frozen w v) us tried.1 v apart (
            then_call-keeps (freeze_each wallet true us w)
              (λ _. wallet.sweep_mixdepth destination depth) v (frozen w v)
              (freeze_each-others true (frozen w v) us w v apart refl)
              (λ _ w1 k. d.sweep_keeps destination depth v w1 ∙ k))
      ]

  -- The listing gives each coin's flag as the wallet has it.
  abbrev pub Listed : List JoinMarketCoin → W → Type 0
  Listed coins w = All (λ c. c.frozen ≡ frozen w (outpoint c)) coins

  to_freeze-thawed :
      (coins selected : List JoinMarketCoin) (depth : ℕ) (w : W) (v : Outpoint)
      → Listed coins w
      → is_among (to_freeze coins selected depth) v ≡ true
      → frozen w v ≡ false
  unfolding to_freeze is_among
  to_freeze-thawed [] selected depth w v h m = absurd (cc m)
  to_freeze-thawed (c ∷ cs) selected depth w v h m =
      let rest = to_freeze-thawed cs selected depth w v h.1 in
      let same = same_outpoint-eq (outpoint c) v in ground (arith, h.0, rest, same)

  world-then :
      {A B : Type 0} (r : Result String A × W) (f : A → B)
      → (then_call {B = B} r (λ a v. (ok (f a), v))).1 ≡ r.1
  world-then (ok a, w) f = refl
  world-then (err e, w) f = refl

  -- Whether the payment or a freeze before it returns or raises: if the unfreezing after it returns, then
  -- the same coins are frozen after a sweep as before it.
  pub sweep-frozen :
      (coins selected : List JoinMarketCoin) (destination : String) (depth : ℕ) (w : W)
      (v : Outpoint)
      → Listed coins w
      → (freeze_each wallet false
          (to_freeze coins selected depth)
          (payment_world (to_freeze coins selected depth) destination depth w)).0
        ≡ ok tt
      → frozen (sweep wallet coins selected destination depth w).1 v ≡ frozen w v
  unfolding sweep
  sweep-frozen coins selected destination depth w v h thawing =
      ap (λ x. frozen x v)
        (world-then (pay_frozen wallet (to_freeze coins selected depth) destination depth w)
          (swept coins))
      ∙ frozen-pay_frozen (to_freeze coins selected depth) destination depth w v thawing
          (to_freeze-thawed coins selected depth w v h)
