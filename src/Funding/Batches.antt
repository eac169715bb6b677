-- ===== src/Funding/Batches.antt =====
-- The fuel of the payment loop is enough, and what an ended payment leaves.
use coinjoin_emulator.Base.{
  ℕ, zero, suc, ◌≡◌, refl, ◌∙◌, ap, sym, subst, Bool, Result, ok, err, String, true, false, List,
  [], ◌∷◌, if◌then◌else◌, take, drop, length, length-drop, arith, Bool-cases, inl, inr, ◌≤◌, ◌<◌,
  ◌⊎◌, keep, not,
}
use coinjoin_emulator.PostmixSpends.{Call}
use coinjoin_emulator.Funding.{
  Invoice, batch_size, SendAnswer, Payment, after_send, attempt_batch, pay_batches, pay_invoices,
  Due, Invoices, InvoiceUpdate, is_due, after_payment, keep_entry, update_invoice_payments,
}

-- The entries that are not due yet.
abbrev pub later : ℕ → ℕ → Invoices → Invoices
later block round g = keep (λ e. not (is_due block round e.0)) g

module _ {W : Type 0} (send : List Invoice → Call W SendAnswer) where
  -- A send that was not answered as done.
  abbrev pub IsVain : Result String SendAnswer × W → Type 0
  IsVain (ok SendAnswer.done, v) = ⊥
  IsVain (ok SendAnswer.timeout, v) = Unit
  IsVain (err e, v) = Unit

  -- Three sends of a batch in a row, all of them in vain, from one world to another.
  abbrev pub InVain : List Invoice → W → W → Type 0
  InVain batch w v =
      let first = send batch w in
      let second = send batch first.1 in
      let third = send batch second.1 in IsVain first × IsVain second × IsVain third × (third.1 ≡ v)

  after_send-IsVain :
      (r : Result String SendAnswer × W) (again : W → Bool × W)
      → (after_send r again).0 ≡ false
      → IsVain r × (after_send r again ≡ again r.1)
  after_send-IsVain (ok SendAnswer.done, v) again h = absurd (cc h)
  after_send-IsVain (ok SendAnswer.timeout, v) again h = (tt, refl)
  after_send-IsVain (err e, v) again h = (tt, refl)

  attempt_batch-InVain :
      (batch : List Invoice) (w : W)
      → (attempt_batch send 3 batch w).0 ≡ false
      → InVain batch w (attempt_batch send 3 batch w).1
  unfolding attempt_batch
  attempt_batch-InVain batch w h =
      let (a, same) = after_send-IsVain (send batch w) (attempt_batch send 2 batch) h in
      let w1 = (send batch w).1 in
      let h1 : (attempt_batch send 2 batch w1).0 ≡ false = sym (ap (λ r. r.0) same) ∙ h in
      let (b, same1) = after_send-IsVain (send batch w1) (attempt_batch send 1 batch) h1 in
      let w2 = (send batch w1).1 in
      let h2 : (attempt_batch send 1 batch w2).0 ≡ false = sym (ap (λ r. r.0) same1) ∙ h1 in
      let (c, same2) = after_send-IsVain (send batch w2) (attempt_batch send 0 batch) h2 in
      (a, b, c, sym (ap (λ r. r.1) same ∙ ap (λ r. r.1) same1 ∙ ap (λ r. r.1) same2))

  -- How a payment ends: none left, or stopped after three sends of the first batch that is left.
  abbrev pub Ended : Payment W → Type 0
  Ended p =
      ((p.succeeded ≡ true) × (p.unpaid ≡ []))
      ⊎ ((p.succeeded ≡ false)
          × ((w : W) × (0 < length p.unpaid) × InVain (take batch_size p.unpaid) w p.world))

  pay_batches-Ended :
      (fuel : ℕ) (xs : List Invoice) (w : W) → length xs ≤ fuel → Ended (pay_batches send fuel xs w)
  unfolding pay_batches
  pay_batches-Ended zero [] w h = inl (refl, refl)
  pay_batches-Ended (suc fuel) [] w h = inl (refl, refl)
  pay_batches-Ended zero (x ∷ xs) w h = absurd (omega arith)
  pay_batches-Ended (suc fuel) (x ∷ xs) w h =
      let batch = take batch_size (x ∷ xs) in
      let attempt = attempt_batch send 3 batch w in
      elim (Bool-cases attempt.0) [
        | inl e ↦ rw e (
            pay_batches-Ended fuel (drop batch_size (x ∷ xs)) attempt.1
              (omega (arith, length-drop batch_size (x ∷ xs), h)))
        | inr e ↦ rw e (inr (refl, (w, omega arith, attempt_batch-InVain batch w e)))
      ]

  -- The loop ends by itself: no invoice is left, or the first batch of those left was sent three times in
  -- vain.
  pub pay_invoices-Ended : (xs : List Invoice) (w : W) → Ended (pay_invoices send xs w)
  unfolding pay_invoices
  pay_invoices-Ended xs w = pay_batches-Ended (length xs) xs w (omega arith)

  completed-after_payment :
      (d : Due) (p : Payment W) (g : Invoices) (next : W → InvoiceUpdate W)
      → (after_payment d p g next).completed ≡ true
      → after_payment d p g next ≡ next p.world
  unfolding after_payment
  completed-after_payment d p g next h = ground (arith, h)

  -- A completed update leaves exactly the entries that are not due, as they were.
  pub update_invoice_payments-later :
      (block round : ℕ) (g : Invoices) (w : W)
      → (update_invoice_payments send block round g w).completed ≡ true
      → (update_invoice_payments send block round g w).scheduled ≡ later block round g
  unfolding update_invoice_payments keep_entry
  update_invoice_payments-later block round [] w h = refl
  update_invoice_payments-later block round ((d, xs) ∷ g) w h =
      let rest = update_invoice_payments send block round g in
      let p = pay_invoices send xs w in
      elim (Bool-cases (is_due block round d)) [
        | inl e ↦ rw e (
            let done : (after_payment d p g rest).completed ≡ true =
              subst
                (λ b.
                  (if b then after_payment d p g rest else keep_entry d xs (rest w)).completed
                  ≡ true)
                e h in
            let same = completed-after_payment d p g rest done in
            ap (λ u. u.scheduled) same
            ∙ update_invoice_payments-later block round g p.world
                (sym (ap (λ u. u.completed) same) ∙ done))
        | inr e ↦ rw e (
            let done : (rest w).completed ≡ true =
              subst
                (λ b.
                  (if b then after_payment d p g rest else keep_entry d xs (rest w)).completed
                  ≡ true)
                e h in
            ap (λ l. (d, xs) ∷ l) (update_invoice_payments-later block round g w done))
      ]
