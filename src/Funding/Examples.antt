-- ===== src/Funding/Examples.antt =====
-- A distributor that times out at its first send; the world is the invoices it paid and the sends made.
use coinjoin_emulator.Base.{
  ℕ, zero, suc, ◌+◌, ◌≡◌, refl, Bool, String, List, [], ◌∷◌, ◌++◌, Result, ok, count_if, ◌==◌,
}
use coinjoin_emulator.PostmixSpends.{Call}
use coinjoin_emulator.Funding.{Invoice, Invoices, SendAnswer, pay_invoices, update_invoice_payments}
use coinjoin_emulator.Funding.Batches.{Ended}
use coinjoin_emulator.Funding.Conserved.{
  acknowledging, outstanding, pay_invoices-acknowledged, update_invoice_payments-known,
}

abbrev World : Type 0
World = List Invoice × ℕ

abbrev answer : List Invoice → List Invoice → ℕ → Result String SendAnswer × World
answer paid batch zero = (ok SendAnswer.timeout, (paid, 1))
answer paid batch (suc n) = (ok SendAnswer.done, (paid ++ batch, suc (suc n)))

abbrev send : List Invoice → Call World SendAnswer
send batch w = answer w.0 batch w.1

abbrev six : List Invoice
six = ("a", 1) ∷ ("b", 2) ∷ ("c", 3) ∷ ("d", 4) ∷ ("e", 5) ∷ ("f", 6) ∷ []

abbrev scheduled : Invoices
scheduled = ((0, 0), six) ∷ ((9, 0), ("g", 7) ∷ []) ∷ []

abbrev is_seven : Invoice → Bool
is_seven i = i.1 == 7

-- Two batches, the first of them sent twice.
pay_runs : (pay_invoices send six ([], 0)).world ≡ (six, 3)
unfolding pay_invoices
pay_runs = refl

pay_invoices-acknowledged_example :
    let p = pay_invoices (acknowledging send) six (([], 0), []) in
    Ended (acknowledging send) p × (p.world.1 ++ p.unpaid ≡ six)
pay_invoices-acknowledged_example = pay_invoices-acknowledged send six ([], 0)

update_invoice_payments-known_example :
    let u = update_invoice_payments (acknowledging send) 1 0 scheduled (([], 0), []) in
    count_if is_seven u.left_world.1 + count_if is_seven (outstanding u.scheduled)
    ≡ count_if is_seven [] + count_if is_seven (outstanding scheduled)
update_invoice_payments-known_example =
    update_invoice_payments-known send is_seven 1 0 scheduled ([], 0) []

abbrev new_address : Call World String
new_address w = (ok "bcrt1q", (w.0, w.1 + 1))

abbrev funded : Invoices
funded = ((0, 0), ("bcrt1q", 5) ∷ []) ∷ ((3, 0), ("bcrt1q", 6) ∷ []) ∷ []
