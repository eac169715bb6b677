-- ===== src/Bonds.antt =====
-- Fidelity bonds: the bonds of a client in
-- manager/wasabi_clients/joinmarket_clients/joinmarket_client_base.py, and their funding,
-- `prepare_additional_funding` of manager/engine/joinmarket_engine.py. jmwalletd's timelock addresses,
-- `pay_invoices` and the mining are parameters. A locktime is a month as text. The values of bonds, which
-- the program computes in floats, and their export are left out.
pub mod Funded
mod Examples
use coinjoin_emulator.Base.{
  ℕ, zero, suc, ◌+◌, ◌-◌, ◌*◌, Bool, true, false, not, String, Option, none, some, List, [], ◌∷◌,
  map, leb, ◌==◌, if◌then◌else◌, str_eq, Result, ok, err, or_default, length,
}
use coinjoin_emulator.Base.Sums.{sum}
use coinjoin_emulator.PostmixSpends.{Call, then_call}
use coinjoin_emulator.Funding.{Invoice}

pub record Bond : Type 0 where
  pub amount : ℕ
  pub locktime : String
  pub creation_block : ℕ
  pub funded : Bool

-- `fidelity_bonds`, in insertion order.
abbrev pub Bonds : Type 0
Bonds = List (String × Bond)

-- `self.fidelity_bonds[address] = bond`
unfoldable pub put_bond : String → Bond → Bonds → Bonds
put_bond address bond [] = (address, bond) ∷ []
put_bond address bond ((a, b) ∷ bs) =
    if str_eq a address then (a, bond) ∷ bs else (a, b) ∷ put_bond address bond bs

-- `mark_bond_funded`; an unknown address is only reported.
unfoldable pub mark_bond_funded : String → Bonds → Bonds
mark_bond_funded address [] = []
mark_bond_funded address ((a, b) ∷ bs) =
    if str_eq a address
    then (a, record b { funded = true }) ∷ bs
    else (a, b) ∷ mark_bond_funded address bs

-- `fidelity_bond` of a wallet.
pub record BondConfig : Type 0 where
  pub enabled : Bool
  pub config_amount : Option ℕ
  pub config_locktime : Option String

-- A client with its wallet's bond, and jmwalletd's answer to a timelock address; a missing or an empty
-- address is `none`.
pub record BondClient (W : Type 0) : Type 0 where
  pub bonds : Bonds
  pub config : BondConfig
  pub timelock_address : String → Call W (Option String)

abbrev default_amount : ℕ
default_amount = 50000

-- A client with the invoice of its new bond, if it has one.
abbrev pub Prepared : Type 0 → Type 0
Prepared W = BondClient W × Option Invoice

module _ {W : Type 0} where
  -- `create_fidelity_bond` after the address is asked for.
  unfoldable pub track_bond :
      ℕ → ℕ → String → BondClient W → Option String → Result String (Option Invoice) × BondClient W
  unfolding put_bond
  track_bond block amount locktime c none = (err "Failed to create fidelity bond address", c)
  track_bond block amount locktime c (some address) =
      let bond : Bond = record {
        amount = amount;
        locktime = locktime;
        creation_block = block;
        funded = false;
      } in
      (ok (some (address, amount)), record c { bonds = put_bond address bond c.bonds })

  unfoldable pub after_address :
      ℕ
      → ℕ
      → String
      → BondClient W
      → Result String (Option String) × W
      → Result String (Option Invoice) × (BondClient W × W)
  unfolding track_bond
  after_address block amount locktime c (err e, w) = (err e, (c, w))
  after_address block amount locktime c (ok address, w) =
      let (out, d) = track_bond block amount locktime c address in (out, (d, w))

  -- A bond whose locktime is missing or empty is skipped.
  unfoldable pub create_with :
      ℕ → ℕ → Option String → BondClient W → W → Result String (Option Invoice) × (BondClient W × W)
  unfolding after_address
  create_with block amount none c w = (ok none, (c, w))
  create_with block amount (some locktime) c w =
      if str_eq locktime ""
      then (ok none, (c, w))
      else after_address block amount locktime c (c.timelock_address locktime w)

  -- One turn of the first loop of `prepare_additional_funding`.
  unfoldable pub prepare_bond :
      ℕ → BondClient W → W → Result String (Option Invoice) × (BondClient W × W)
  unfolding create_with
  prepare_bond block c w =
      if not c.config.enabled
      then (ok none, (c, w))
      else create_with block (or_default c.config.config_amount default_amount)
          c.config.config_locktime c w

  abbrev add_prepared :
      BondClient W
      → Option Invoice
      → Result String (Unit {0}) × (List (Prepared W) × W)
      → Result String (Unit {0}) × (List (Prepared W) × W)
  add_prepared c i (out, (cs, w)) = (out, ((c, i) ∷ cs, w))

  -- An error ends the loop: the later clients are as they were.
  unfoldable pub then_prepare :
      List (BondClient W)
      → (W → Result String (Unit {0}) × (List (Prepared W) × W))
      → Result String (Option Invoice) × (BondClient W × W)
      → Result String (Unit {0}) × (List (Prepared W) × W)
  then_prepare cs rest (err e, (c, w)) = (err e, ((c, none) ∷ map (λ d. (d, none)) cs, w))
  then_prepare cs rest (ok i, (c, w)) = add_prepared c i (rest w)

  unfoldable pub prepare_bonds :
      ℕ → List (BondClient W) → W → Result String (Unit {0}) × (List (Prepared W) × W)
  unfolding then_prepare prepare_bond
  prepare_bonds block [] w = (ok tt, ([], w))
  prepare_bonds block (c ∷ cs) w = then_prepare cs (prepare_bonds block cs) (prepare_bond block c w)

  -- `bond_invoices`
  unfoldable pub bond_invoices : List (Prepared W) → List Invoice
  bond_invoices [] = []
  bond_invoices ((c, none) ∷ ps) = bond_invoices ps
  bond_invoices ((c, some i) ∷ ps) = i ∷ bond_invoices ps

  unfoldable pub mark_prepared : Prepared W → BondClient W
  unfolding mark_bond_funded
  mark_prepared (c, none) = c
  mark_prepared (c, some i) = record c { bonds = mark_bond_funded i.0 c.bonds }

  abbrev clients_of : List (Prepared W) → List (BondClient W)
  clients_of ps = map (λ p. p.0) ps

  -- Fifteen blocks after the payment.
  unfoldable pub mine_blocks : (W → Result String (Unit {0}) × W) → ℕ → Call W (Unit {0})
  mine_blocks mine_block zero w = (ok tt, w)
  mine_blocks mine_block (suc n) w = then_call (mine_block w) (λ _. mine_blocks mine_block n)

  -- Once the bonds are paid for, they are funded, whatever the mining does.
  unfoldable pub after_bond_payment :
      (W → Result String (Unit {0}) × W)
      → List (Prepared W)
      → Result String (Unit {0}) × W
      → Result String (Unit {0}) × (List (BondClient W) × W)
  unfolding mark_prepared mine_blocks
  after_bond_payment mine_block ps (err e, w) = (err e, (clients_of ps, w))
  after_bond_payment mine_block ps (ok _, w) =
      let (out, v) = mine_blocks mine_block 15 w in (out, (map mark_prepared ps, v))

  -- Without invoices nothing is paid.
  unfoldable pub pay_bonds :
      (List Invoice → Call W (Unit {0}))
      → (W → Result String (Unit {0}) × W)
      → List (Prepared W)
      → List Invoice
      → W
      → Result String (Unit {0}) × (List (BondClient W) × W)
  unfolding after_bond_payment
  pay_bonds pay mine_block ps [] w = (ok tt, (clients_of ps, w))
  pay_bonds pay mine_block ps (i ∷ is) w = after_bond_payment mine_block ps (pay (i ∷ is) w)

  unfoldable pub fund_prepared :
      (List Invoice → Call W (Unit {0}))
      → (W → Result String (Unit {0}) × W)
      → Result String (Unit {0}) × (List (Prepared W) × W)
      → Result String (Unit {0}) × (List (BondClient W) × W)
  unfolding pay_bonds bond_invoices
  fund_prepared pay mine_block (err e, (ps, w)) = (err e, (clients_of ps, w))
  fund_prepared pay mine_block (ok _, (ps, w)) = pay_bonds pay mine_block ps (bond_invoices ps) w

  -- `prepare_additional_funding`: the clients with their bonds, as it leaves them.
  unfoldable pub prepare_additional_funding :
      (List Invoice → Call W (Unit {0}))
      → (W → Result String (Unit {0}) × W)
      → ℕ
      → List (BondClient W)
      → W
      → Result String (Unit {0}) × (List (BondClient W) × W)
  unfolding fund_prepared prepare_bonds
  prepare_additional_funding pay mine_block block cs w =
      fund_prepared pay mine_block (prepare_bonds block cs w)
