-- ===== src/Funding/Distributor/Funded.antt =====
-- When what is paid arrives, the distributor has at least the total, for less than a satoshi a coin more,
-- and the wait ends.
use coinjoin_emulator.Base.{
  ℕ, zero, suc, ◌+◌, ◌-◌, ◌*◌, ◌≤◌, ◌<◌, ◌≡◌, refl, ◌∙◌, false, String, some, ltb, ok, arith,
  Bool-cases, inl, inr, not_ltb→le,
}
use coinjoin_emulator.Funding.Distributor.{
  distributor_utxos, per_utxo_sats, FundingCalls, fund_addresses, after_balance, wait_balance,
  after_payments, fund_distributor,
}

-- The node pays what it is asked, the distributor has a balance once what was paid is confirmed, and
-- within so many seconds it is.
pub record Arrives {W : Type 0} (calls : FundingCalls W) (paid balance left : W → ℕ) : Type 0 where
  pub addresses :
      (w : W) → (to : String) × (v : W) × (calls.get_new_address w ≡ (ok to, v)) × (paid v ≡ paid w)
  pub pays :
      (to : String) (sats : ℕ) (w : W)
      → (v : W) × (calls.fund_address to sats w ≡ (ok tt, v)) × (paid v ≡ paid w + sats)
  pub balances : (w : W) → calls.get_balance w ≡ (ok (balance w), w)
  pub confirmed : (w : W) → left w ≡ 0 → paid w ≤ balance w
  pub slept : (w : W) → paid (calls.sleep w) ≡ paid w
  pub nearer : (w : W) → left (calls.sleep w) ≤ left w - 1

per_utxo_sats-bounds :
    (total : ℕ) → (total ≤ 200 * per_utxo_sats total) × (200 * per_utxo_sats total < total + 200)
unfolding per_utxo_sats
per_utxo_sats-bounds total = (omega arith, omega arith)

module _ {W : Type 0} (calls : FundingCalls W) (paid balance left : W → ℕ)
    (a : Arrives calls paid balance left) where
  fund_addresses-paid :
      (n sats : ℕ) (w : W)
      → (v : W) × (fund_addresses calls n sats w ≡ (ok tt, v)) × (paid v ≡ paid w + n * sats)
  unfolding fund_addresses
  fund_addresses-paid zero sats w = (w, refl, omega arith)
  fund_addresses-paid (suc n) sats w =
      let (to, v, e, kept) = a.addresses w in
      let (u, f, more) = a.pays to sats v in
      let (t, g, rest) = fund_addresses-paid n sats u in
      (t, rw (e, f) g, omega (arith, kept, more, rest))

  -- The wait ends with the balance.
  wait_balance-ends :
      (total : ℕ) (n : ℕ) (w : W)
      → left w ≤ n
      → total ≤ paid w
      → (v : W) × (wait_balance calls total (suc n) w ≡ some (ok tt, v))
        × (total ≤ balance v)
        × (paid v ≡ paid w)
  unfolding wait_balance after_balance
  wait_balance-ends total zero w near funded =
      let enough : ltb (balance w) total ≡ false =
        ground (arith, a.confirmed w (omega (arith, near)), funded) in
      (w, rw (a.balances w, enough) refl, not_ltb→le _ _ enough, refl)
  wait_balance-ends total (suc n) w near funded = elim (Bool-cases (ltb (balance w) total)) [
    | inr enough ↦ (w, rw (a.balances w, enough) refl, not_ltb→le _ _ enough, refl)
    | inl short ↦
        let (v, e, arrived, kept) =
          wait_balance-ends total n (calls.sleep w) (omega (arith, near, a.nearer w))
            (omega (arith, funded, a.slept w)) in
        (v, rw (a.balances w, short) e, arrived, kept ∙ a.slept w)
  ]

  -- When every payment arrives after some seconds, the funding returns, the balance is the total at
  -- least, and what was paid for it is less than a satoshi a coin more.
  pub fund_distributor-ends :
      (total : ℕ) (w : W)
      → (fuel : ℕ) × (v : W) × (fund_distributor calls total fuel w ≡ some (ok tt, v))
        × (total ≤ balance v)
        × (paid v < paid w + total + distributor_utxos)
  unfolding fund_distributor after_payments
  fund_distributor-ends total w =
      let (u, e, funded) = fund_addresses-paid distributor_utxos (per_utxo_sats total) w in
      let (v, f, arrived, kept) =
        wait_balance-ends total (left u) u (omega arith)
          (omega (arith, funded, (per_utxo_sats-bounds total).0)) in
      (
        suc (left u),
        v,
        rw e f,
        arrived,
        omega (arith, kept, funded, (per_utxo_sats-bounds total).1),
      )
