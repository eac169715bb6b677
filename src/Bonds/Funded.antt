-- ===== src/Bonds/Funded.antt =====
-- Once `prepare_additional_funding` returns, each bond that it created is marked as funded, and its amount
-- was among the invoices of a payment that returned.
use coinjoin_emulator.Base.{
  ℕ, ◌≡◌, ◌≢◌, ◌⊎◌, refl, true, Option, none, some, List, [], ◌∷◌, map, String, All, All-imp,
  str_eq, eq_iff, Bool-cases, inl, inr, Result, ok, err, not, if_both, ap, subst,
}
use coinjoin_emulator.PostmixSpends.{Call}
use coinjoin_emulator.Funding.{Invoice}
use coinjoin_emulator.Bonds.{
  Bond, Bonds, BondClient, Prepared, put_bond, mark_bond_funded, track_bond, after_address,
  create_with, prepare_bond, then_prepare, prepare_bonds, bond_invoices, mark_prepared, mine_blocks,
  after_bond_payment, pay_bonds, fund_prepared, prepare_additional_funding,
}

abbrev pub IsAmong : Invoice → List Invoice → Type 0
IsAmong x [] = ⊥
IsAmong x (y ∷ ys) = (x ≡ y) ⊎ IsAmong x ys

-- A bond under its address that is marked as funded, with its amount among the invoices.
pub record IsPaidFor (is : List Invoice) (e : String × Bond) : Type 0 where
  pub marked : e.1.funded ≡ true
  pub invoiced : IsAmong (e.0, e.1.amount) is

abbrev one : Option Invoice → List Invoice
one none = []
one (some i) = i ∷ []

-- What is known of a client's bonds before: `Old`.
module _ (Old : String × Bond → Type 0) where
  -- A bond of before, or one that these invoices paid for.
  abbrev pub IsCovered : List Invoice → String × Bond → Type 0
  IsCovered is e = Old e ⊎ IsPaidFor is e

  mark-put_bond :
      (a : String) (b : Bond) (bs : Bonds)
      → All Old bs
      → All (IsCovered ((a, b.amount) ∷ [])) (mark_bond_funded a (put_bond a b bs))
  unfolding mark_bond_funded put_bond
  mark-put_bond a b [] h =
      rw ((eq_iff a a).1 refl) (inr (record { marked = refl; invoiced = inl refl }), tt)
  mark-put_bond a b ((c, d) ∷ bs) h = elim (Bool-cases (str_eq c a)) [
    | inl same ↦
        rw (same, same)
          (
            inr (record {
              marked = refl;
              invoiced = inl (ap (λ x. (x, b.amount)) ((eq_iff c a).0 same));
            }),
            All-imp Old (IsCovered ((a, b.amount) ∷ [])) bs (λ e o. inl o) h.1,
          )
    | inr other ↦ rw (other, other) (inl h.0, mark-put_bond a b bs h.1)
  ]

  kept : (bs : Bonds) → All Old bs → All (IsCovered []) bs
  kept bs h = All-imp Old (IsCovered []) bs (λ e o. inl o) h

  more-invoices :
      (is js : List Invoice)
      → ((x : Invoice) → IsAmong x is → IsAmong x js)
      → (e : String × Bond) → IsCovered is e
      → IsCovered js e
  more-invoices is js within e (inl o) = inl o
  more-invoices is js within e (inr p) =
      inr (record { marked = p.marked; invoiced = within (e.0, e.1.amount) p.invoiced })

module _ {W : Type 0} (Old : String × Bond → Type 0) where
  -- A client whose bonds are covered by its invoice once that is paid.
  abbrev Pays : Prepared W → Type 0
  Pays p = All (IsCovered Old (one p.1)) (mark_prepared p).bonds

  -- What one turn of the first loop leaves, if it does not raise.
  abbrev TurnPays : Result String (Option Invoice) × (BondClient W × W) → Type 0
  TurnPays (err e, r) = Unit
  TurnPays (ok i, (c, w)) = Pays (c, i)

  abbrev LoopPays : Result String (Unit {0}) × (List (Prepared W) × W) → Type 0
  LoopPays (err e, r) = Unit
  LoopPays (ok _, (ps, w)) = All Pays ps

  track_bond-Pays :
      (block amount : ℕ) (locktime : String) (c : BondClient W) (address : Option String) (w : W)
      → All Old c.bonds
      → TurnPays (let (out, d) = track_bond block amount locktime c address in (out, (d, w)))
  unfolding track_bond mark_prepared
  track_bond-Pays block amount locktime c none w h = tt
  track_bond-Pays block amount locktime c (some a) w h = mark-put_bond Old a _ c.bonds h

  after_address-Pays :
      (block amount : ℕ) (locktime : String) (c : BondClient W)
      (answer : Result String (Option String) × W)
      → All Old c.bonds
      → TurnPays (after_address block amount locktime c answer)
  unfolding after_address
  after_address-Pays block amount locktime c (err e, w) h = tt
  after_address-Pays block amount locktime c (ok a, w) h =
      track_bond-Pays block amount locktime c a w h

  create_with-Pays :
      (block amount : ℕ) (locktime : Option String) (c : BondClient W) (w : W)
      → All Old c.bonds
      → TurnPays (create_with block amount locktime c w)
  unfolding create_with mark_prepared
  create_with-Pays block amount none c w h = kept Old c.bonds h
  create_with-Pays block amount (some t) c w h =
      if_both TurnPays (str_eq t "") _ _ (kept Old c.bonds h)
        (after_address-Pays block amount t c (c.timelock_address t w) h)

  prepare_bond-Pays :
      (block : ℕ) (c : BondClient W) (w : W) → All Old c.bonds → TurnPays (prepare_bond block c w)
  unfolding prepare_bond mark_prepared
  prepare_bond-Pays block c w h =
      if_both TurnPays (not c.config.enabled) _ _ (kept Old c.bonds h)
        (create_with-Pays block _ c.config.config_locktime c w h)

  then_prepare-Pays :
      (cs : List (BondClient W)) (rest : W → Result String (Unit {0}) × (List (Prepared W) × W))
      (turn : Result String (Option Invoice) × (BondClient W × W))
      → TurnPays turn
      → ((w : W) → LoopPays (rest w))
      → LoopPays (then_prepare cs rest turn)
  unfolding then_prepare
  then_prepare-Pays cs rest (err e, (c, w)) h k = tt
  then_prepare-Pays cs rest (ok i, (c, w)) h k = go (rest w) (k w)
    where
      go :
          (r : Result String (Unit {0}) × (List (Prepared W) × W))
          → LoopPays r
          → LoopPays (r.0, ((c, i) ∷ r.1.0, r.1.1))
      go (err e, (ps, v)) l = tt
      go (ok _, (ps, v)) l = (h, l)

  prepare_bonds-Pays :
      (block : ℕ) (cs : List (BondClient W)) (w : W)
      → All (λ c. All Old c.bonds) cs
      → LoopPays (prepare_bonds block cs w)
  unfolding prepare_bonds
  prepare_bonds-Pays block [] w h = tt
  prepare_bonds-Pays block (c ∷ cs) w h =
      then_prepare-Pays cs (prepare_bonds block cs) (prepare_bond block c w)
        (prepare_bond-Pays block c w h.0) (λ v. prepare_bonds-Pays block cs v h.1)

  -- The bonds of all clients are covered by these invoices.
  abbrev pub AllCovered : List Invoice → List (BondClient W) → Type 0
  AllCovered is cs = All (λ c. All (IsCovered Old is) c.bonds) cs

  marked-AllCovered :
      (ps : List (Prepared W)) (js : List Invoice)
      → ((x : Invoice) → IsAmong x (bond_invoices ps) → IsAmong x js)
      → All Pays ps
      → AllCovered js (map mark_prepared ps)
  unfolding bond_invoices mark_prepared
  marked-AllCovered [] js within h = tt
  marked-AllCovered ((c, none) ∷ ps) js within h = (
    All-imp (IsCovered Old []) (IsCovered Old js) c.bonds
        (λ e k. more-invoices Old [] js (λ x m. absurd m) e k) h.0,
    marked-AllCovered ps js within h.1,
  )
  marked-AllCovered ((c, some i) ∷ ps) js within h = (
    All-imp (IsCovered Old (i ∷ [])) (IsCovered Old js) (mark_bond_funded i.0 c.bonds)
        (λ e k.
          more-invoices Old (i ∷ []) js (λ x m. within x (of_one x i (bond_invoices ps) m)) e k)
        h.0,
    marked-AllCovered ps js (λ x m. within x (inr m)) h.1,
  )
    where
      of_one : (x i : Invoice) (is : List Invoice) → IsAmong x (i ∷ []) → IsAmong x (i ∷ is)
      of_one x i is (inl e) = inl e
      of_one x i is (inr m) = absurd m

  -- Without an invoice there was nothing to mark.
  unpaid-AllCovered :
      (ps : List (Prepared W))
      → bond_invoices ps ≡ []
      → All Pays ps
      → AllCovered [] (map (λ p. p.0) ps)
  unfolding bond_invoices mark_prepared
  unpaid-AllCovered [] q h = tt
  unpaid-AllCovered ((c, none) ∷ ps) q h = (h.0, unpaid-AllCovered ps q h.1)
  unpaid-AllCovered ((c, some i) ∷ ps) q h = absurd (cc q)

  module _ (pay : List Invoice → Call W (Unit {0}))
      (mine_block : W → Result String (Unit {0}) × W) where
    -- The payment of all bonds at once, if there are any: it returned, and it covers them.
    pub record Funding (cs : List (BondClient W)) : Type 0 where
      pub invoices : List Invoice
      pub at_payment : W
      pub returned : invoices ≢ [] → (pay invoices at_payment).0 ≡ ok tt
      pub covered : AllCovered invoices cs

    -- What the whole leaves, if it does not raise.
    abbrev AllFunded : Result String (Unit {0}) × (List (BondClient W) × W) → Type 0
    AllFunded (err e, r) = Unit
    AllFunded (ok _, (cs, w)) = Funding cs

    whatever-funded :
        (out : Result String (Unit {0})) (cs : List (BondClient W)) (w : W)
        → Funding cs
        → AllFunded (out, (cs, w))
    whatever-funded (err e) cs w h = tt
    whatever-funded (ok _) cs w h = h

    after_bond_payment-funded :
        (ps : List (Prepared W)) (is : List Invoice) (w : W) (paid : Result String (Unit {0}) × W)
        → bond_invoices ps ≡ is
        → pay is w ≡ paid
        → All Pays ps
        → AllFunded (after_bond_payment mine_block ps paid)
    unfolding after_bond_payment
    after_bond_payment-funded ps is w (err e, v) q r h = tt
    after_bond_payment-funded ps is w (ok _, v) q r h =
        let mined = mine_blocks mine_block 15 v in
        whatever-funded mined.0 (map mark_prepared ps) mined.1 (record {
          invoices = is;
          at_payment = w;
          returned = λ _. ap (λ x. x.0) r;
          covered = marked-AllCovered ps is (λ x m. subst (IsAmong x) q m) h;
        })

    pay_bonds-funded :
        (ps : List (Prepared W)) (is : List Invoice) (w : W)
        → bond_invoices ps ≡ is
        → All Pays ps
        → AllFunded (pay_bonds pay mine_block ps is w)
    unfolding pay_bonds
    pay_bonds-funded ps [] w q h = record {
      invoices = [];
      at_payment = w;
      returned = λ some_there. absurd (some_there refl);
      covered = unpaid-AllCovered ps q h;
    }
    pay_bonds-funded ps (i ∷ is) w q h =
        after_bond_payment-funded ps (i ∷ is) w (pay (i ∷ is) w) q refl h

    fund_prepared-funded :
        (out : Result String (Unit {0}) × (List (Prepared W) × W))
        → LoopPays out
        → AllFunded (fund_prepared pay mine_block out)
    unfolding fund_prepared
    fund_prepared-funded (err e, (ps, w)) h = tt
    fund_prepared-funded (ok _, (ps, w)) h = pay_bonds-funded ps (bond_invoices ps) w refl h

    AllFunded-ok :
        (out : Result String (Unit {0}) × (List (BondClient W) × W))
        → AllFunded out
        → out.0 ≡ ok tt
        → Funding out.1.0
    AllFunded-ok (err e, r) h q = absurd (cc q)
    AllFunded-ok (ok _, (cs, w)) h q = h

    -- If the call returns, then one payment returned, or there was nothing to pay; and each bond of a
    -- client afterwards is as one of before, or is marked as funded with its address and amount among
    -- the invoices of that payment.
    pub prepare_additional_funding-IsFunded :
        (block : ℕ) (cs : List (BondClient W)) (w : W)
        → All (λ c. All Old c.bonds) cs
        → (prepare_additional_funding pay mine_block block cs w).0 ≡ ok tt
        → Funding (prepare_additional_funding pay mine_block block cs w).1.0
    unfolding prepare_additional_funding
    prepare_additional_funding-IsFunded block cs w h q =
        let out = fund_prepared pay mine_block (prepare_bonds block cs w) in
        AllFunded-ok out
          (fund_prepared-funded (prepare_bonds block cs w) (prepare_bonds-Pays block cs w h)) q
