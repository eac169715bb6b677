-- ===== src/Bonds/Examples.antt =====
-- A client whose wallet has a bond of 50,000 satoshis, created at block 7.
use coinjoin_emulator.Base.{ℕ, ◌+◌, ◌≡◌, refl, true, none, some, List, [], ◌∷◌, ok, String, Result}
use coinjoin_emulator.PostmixSpends.{Call}
use coinjoin_emulator.Funding.{Invoice}
use coinjoin_emulator.Bonds.{Bond, Bonds, BondClient, prepare_additional_funding}
use coinjoin_emulator.Bonds.Funded.{Funding, prepare_additional_funding-IsFunded}

-- The world counts the calls.
abbrev client : BondClient ℕ
client = record {
  bonds = [];
  config = record { enabled = true; config_amount = none; config_locktime = some "2027-03" };
  timelock_address = λ locktime w. (ok (some "bcrt1bond"), w + 1);
}

abbrev pay : List Invoice → Call ℕ (Unit {0})
pay invoices w = (ok tt, w + 1)

abbrev mine_block : ℕ → Result String (Unit {0}) × ℕ
mine_block w = (ok tt, w + 1)

abbrev stored : Bonds
stored =
    (
      "bcrt1bond",
      record { amount = 50000; locktime = "2027-03"; creation_block = 7; funded = true },
    )
    ∷ []

-- An address, a payment and fifteen blocks.
funding_run :
    prepare_additional_funding pay mine_block 7 (client ∷ []) 0
    ≡ (ok tt, (record client { bonds = stored } ∷ [], 17))
unfolding prepare_additional_funding
funding_run = refl

-- No bond is there before.
abbrev NoBond : String × Bond → Type 0
NoBond e = ⊥

prepare_additional_funding-IsFunded_example :
    Funding NoBond pay mine_block (prepare_additional_funding pay mine_block 7 (client ∷ []) 0).1.0
unfolding prepare_additional_funding
prepare_additional_funding-IsFunded_example =
    prepare_additional_funding-IsFunded NoBond pay mine_block 7 (client ∷ []) 0 (tt, tt) refl
