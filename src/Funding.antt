-- ===== src/Funding.antt =====
-- The funding of wallets in manager/engine/engine_base.py: `prepare_invoices`, `pay_invoices` and
-- `update_invoice_payments`. The wallets' new addresses, the shuffle and the distributor are parameters;
-- calls take the world as it is and leave a world.
pub mod Batches
pub mod Conserved
pub mod Distributor
pub mod Prepared
mod Examples
use coinjoin_emulator.Base.{
  ℕ, zero, suc, ◌+◌, Bool, true, false, ◌&&◌, String, Option, none, some, List, [], ◌∷◌, ◌++◌, map,
  leb, ◌==◌, if◌then◌else◌, take, drop, length, Result, ok, err, or_default,
}
use coinjoin_emulator.PostmixSpends.{Call, then_call}

-- An addressed invoice: destination and value.
abbrev pub Invoice : Type 0
Invoice = String × ℕ

-- A time to pay: block and round.
abbrev pub Due : Type 0
Due = ℕ × ℕ

-- `self.invoices`, in insertion order.
abbrev pub Invoices : Type 0
Invoices = List (Due × List Invoice)

-- An entry of `funds`: a value, or a `FundConfig`.
pub data Fund : Type 0 where
  plain : ℕ → Fund
  delayed : (value : ℕ) (delay_blocks delay_rounds : Option ℕ) → Fund

unfoldable pub fund_value : Fund → ℕ
fund_value (plain v) = v
fund_value (delayed v b r) = v

unfoldable pub fund_due : Fund → Due
fund_due (plain v) = (0, 0)
fund_due (delayed v b r) = (or_default b 0, or_default r 0)

abbrev same_due : Due → Due → Bool
same_due a b = a.0 == b.0 && a.1 == b.1

-- The invoice is added to those of its time, or begins them.
unfoldable pub add_invoice : Due → Invoice → Invoices → Invoices
add_invoice d x [] = (d, x ∷ []) ∷ []
add_invoice d x ((e, xs) ∷ g) =
    if same_due e d then (e, xs ++ x ∷ []) ∷ g else (e, xs) ∷ add_invoice d x g

module _ {W : Type 0} where
  -- The funds of one client, each with a new address of it.
  unfoldable pub invoice_client : Call W String → List Fund → Invoices → Call W Invoices
  unfolding add_invoice fund_value fund_due
  invoice_client get_new_address [] g w = (ok g, w)
  invoice_client get_new_address (f ∷ fs) g w =
      then_call (get_new_address w)
        (λ to. invoice_client get_new_address fs (add_invoice (fund_due f) (to, fund_value f) g))

  unfoldable pub invoice_clients : List (Call W String × List Fund) → Invoices → Call W Invoices
  unfolding invoice_client
  invoice_clients [] g w = (ok g, w)
  invoice_clients ((get_new_address, fs) ∷ cs) g w =
      then_call (invoice_client get_new_address fs g w) (λ h. invoice_clients cs h)

  -- `prepare_invoices`
  unfoldable pub prepare_invoices :
      (List Invoice → List Invoice) → List (Call W String × List Fund) → Invoices → Call W Invoices
  unfolding invoice_clients
  prepare_invoices shuffle clients g w =
      then_call (invoice_clients clients g w) (λ h v. (ok (map (λ e. (e.0, shuffle e.1)) h), v))

-- BATCH_SIZE
abbrev pub batch_size : ℕ
batch_size = 5

-- What a send answers: the text "timeout", or anything else.
pub data SendAnswer : Type 0 where
  timeout done : SendAnswer

-- The end of one attempt: sent, or on to what is left after a timeout or an error.
abbrev pub after_send : {W : Type 0} → Result String SendAnswer × W → (W → Bool × W) → Bool × W
after_send (ok done, w) again = (true, w)
after_send (ok timeout, w) again = again w
after_send (err e, w) again = again w

-- What a payment leaves: whether it succeeded, the invoices not paid, and the world.
pub record Payment (W : Type 0) : Type 0 where
  pub succeeded : Bool
  pub unpaid : List Invoice
  pub world : W

-- What an update of the invoices leaves.
pub record InvoiceUpdate (W : Type 0) : Type 0 where
  pub completed : Bool
  pub scheduled : Invoices
  pub left_world : W

unfoldable pub is_due : ℕ → ℕ → Due → Bool
is_due block round d = leb d.0 block && leb d.1 round

-- The invoices of one due time: with an error the rest of them stays scheduled and the loop ends.
unfoldable pub after_payment :
    {W : Type 0} → Due → Payment W → Invoices → (W → InvoiceUpdate W) → InvoiceUpdate W
after_payment d p g next =
    if p.succeeded
    then next p.world
    else record { completed = false; scheduled = (d, p.unpaid) ∷ g; left_world = p.world }

-- An entry that is not due stays where it is.
unfoldable pub keep_entry : {W : Type 0} → Due → List Invoice → InvoiceUpdate W → InvoiceUpdate W
keep_entry d xs u = record u { scheduled = (d, xs) ∷ u.scheduled }

module _ {W : Type 0} (send : List Invoice → Call W SendAnswer) where
  -- The `for ... else` loop over the attempts left: whether the batch was sent.
  unfoldable pub attempt_batch : ℕ → List Invoice → W → Bool × W
  attempt_batch zero batch w = (false, w)
  attempt_batch (suc n) batch w = after_send (send batch w) (attempt_batch n batch)

  -- The `while` loop, on fuel.
  unfoldable pub pay_batches : ℕ → List Invoice → W → Payment W
  unfolding attempt_batch
  pay_batches fuel [] w = record { succeeded = true; unpaid = []; world = w }
  pay_batches zero (x ∷ xs) w = record { succeeded = false; unpaid = x ∷ xs; world = w }
  pay_batches (suc fuel) (x ∷ xs) w =
      let (sent, v) = attempt_batch 3 (take batch_size (x ∷ xs)) w in
      let rest = pay_batches fuel (drop batch_size (x ∷ xs)) v in
      if sent then rest else record { succeeded = false; unpaid = x ∷ xs; world = v }

  -- `pay_invoices`: every round pays at least one invoice, so their number is fuel enough.
  unfoldable pub pay_invoices : List Invoice → W → Payment W
  unfolding pay_batches
  pay_invoices xs w = pay_batches (length xs) xs w

  -- `update_invoice_payments`
  unfoldable pub update_invoice_payments : ℕ → ℕ → Invoices → W → InvoiceUpdate W
  unfolding is_due after_payment keep_entry pay_invoices
  update_invoice_payments block round [] w = record {
    completed = true;
    scheduled = [];
    left_world = w;
  }
  update_invoice_payments block round ((d, xs) ∷ g) w =
      if is_due block round d
      then after_payment d (pay_invoices xs w) g (update_invoice_payments block round g)
      else keep_entry d xs (update_invoice_payments block round g w)
