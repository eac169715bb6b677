-- ===== src/Funding/Distributor/Examples.antt =====
-- Funding with 1001 satoshis: a world is the balance, what is paid and not confirmed, and the addresses
-- given; a second confirms what is paid.
use coinjoin_emulator.Base.{ℕ, ◌+◌, ◌≤◌, ◌<◌, ◌≡◌, refl, some, ok, arith}
use coinjoin_emulator.Funding.Distributor.{FundingCalls, fund_distributor}
use coinjoin_emulator.Funding.Distributor.Funded.{Arrives, fund_distributor-ends}

pub record World : Type 0 where
  pub confirmed : ℕ
  pub pending : ℕ

abbrev second : World → World
second w = record { confirmed = w.confirmed + w.pending; pending = 0 }

abbrev node : FundingCalls World
node = record {
  get_new_address = λ w. (ok "d", w);
  fund_address = λ to sats w. (ok tt, record w { pending = w.pending + sats });
  get_balance = λ w. (ok w.confirmed, w);
  sleep = second;
}

abbrev paid : World → ℕ
paid w = w.confirmed + w.pending

abbrev node-Arrives : Arrives node paid (λ w. w.confirmed) (λ w. w.pending)
node-Arrives = record {
  addresses = λ w. ("d", w, refl, refl);
  pays = λ to sats w. (record w { pending = w.pending + sats }, refl, omega arith);
  balances = λ w. refl;
  confirmed = λ w h. omega (arith, h);
  slept = λ w. omega arith;
  nearer = λ w. omega arith;
}

fund_distributor-ends_example :
    (fuel : ℕ) × (v : World) × (fund_distributor node 1001 fuel
        (record { confirmed = 5; pending = 0 })
      ≡ some (ok tt, v))
    × (1001 ≤ v.confirmed)
    × (paid v < 5 + 0 + 1001 + 200)
fund_distributor-ends_example =
    fund_distributor-ends node paid (λ w. w.confirmed) (λ w. w.pending) node-Arrives 1001
      (record { confirmed = 5; pending = 0 })
