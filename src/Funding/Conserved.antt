-- ===== src/Funding/Conserved.antt =====
-- What the engine knows of its payments: the batches that the distributor answered as done, and the
-- invoices that stay scheduled. Whether an answer is true is the distributor's matter.
use coinjoin_emulator.Base.{
  ℕ, zero, suc, ◌+◌, ◌≡◌, refl, ◌∙◌, ap, Bool, true, String, List, [], ◌∷◌, ◌++◌, if◌then◌else◌,
  take, drop, length, take-append-drop, Result, ok, err, arith, Bool-cases, inl, inr, append_assoc,
  count_if, count_if-append,
}
use coinjoin_emulator.PostmixSpends.{Call}
use coinjoin_emulator.Funding.Batches.{Ended, pay_invoices-Ended}
use coinjoin_emulator.Funding.{
  Invoice, Due, Invoices, batch_size, SendAnswer, after_send, Payment, InvoiceUpdate, attempt_batch,
  pay_batches, pay_invoices, is_due, after_payment, keep_entry, update_invoice_payments,
}

-- The batch is acknowledged by an answer that it is done, and by nothing else.
abbrev noted_answer :
    {W : Type 0}
    → List Invoice
    → List Invoice
    → Result String SendAnswer × W
    → Result String SendAnswer × (W × List Invoice)
noted_answer acked batch (ok SendAnswer.done, v) = (ok SendAnswer.done, (v, acked ++ batch))
noted_answer acked batch (ok SendAnswer.timeout, v) = (ok SendAnswer.timeout, (v, acked))
noted_answer acked batch (err e, v) = (err e, (v, acked))

-- A distributor with, beside its world, the list of the invoices that it acknowledged.
abbrev pub acknowledging :
    {W : Type 0}
    → (List Invoice → Call W SendAnswer)
    → List Invoice
    → Call (W × List Invoice) SendAnswer
acknowledging send batch (w, acked) = noted_answer acked batch (send batch w)

-- The record of a send, by its answer.
abbrev Notes :
    {W : Type 0} → (W → List Invoice) → List Invoice → W → Result String SendAnswer × W → Type 0
Notes paid batch w (ok SendAnswer.done, v) = paid v ≡ paid w ++ batch
Notes paid batch w (ok SendAnswer.timeout, v) = paid v ≡ paid w
Notes paid batch w (err e, v) = paid v ≡ paid w

-- All invoices of a schedule.
abbrev pub outstanding : Invoices → List Invoice
outstanding [] = []
outstanding ((d, xs) ∷ g) = xs ++ outstanding g

module _ {W : Type 0} (send : List Invoice → Call W SendAnswer) (paid : W → List Invoice)
    (pays : (batch : List Invoice) (w : W) → Notes paid batch w (send batch w)) where
  after_send-paid :
      (batch : List Invoice) (w : W) (r : Result String SendAnswer × W) (again : W → Bool × W)
      → Notes paid batch w r
      → ((v : W) → paid (again v).1 ≡ (if (again v).0 then paid v ++ batch else paid v))
      → paid (after_send r again).1 ≡ (if (after_send r again).0 then paid w ++ batch else paid w)
  after_send-paid batch w (ok SendAnswer.done, v) again p h = p
  after_send-paid batch w (ok SendAnswer.timeout, v) again p h =
      h v ∙ ap (λ l. if (again v).0 then l ++ batch else l) p
  after_send-paid batch w (err e, v) again p h =
      h v ∙ ap (λ l. if (again v).0 then l ++ batch else l) p

  attempt_batch-paid :
      (n : ℕ) (batch : List Invoice) (w : W)
      → let (sent, v) = attempt_batch send n batch w in
        paid v ≡ (if sent then paid w ++ batch else paid w)
  unfolding attempt_batch
  attempt_batch-paid zero batch w = refl
  attempt_batch-paid (suc n) batch w =
      after_send-paid batch w (send batch w) (attempt_batch send n batch) (pays batch w)
        (attempt_batch-paid n batch)

  pay_batches-paid :
      (fuel : ℕ) (xs : List Invoice) (w : W)
      → let p = pay_batches send fuel xs w in paid p.world ++ p.unpaid ≡ paid w ++ xs
  unfolding pay_batches
  pay_batches-paid zero [] w = refl
  pay_batches-paid (suc fuel) [] w = refl
  pay_batches-paid zero (x ∷ xs) w = refl
  pay_batches-paid (suc fuel) (x ∷ xs) w =
      let batch = take batch_size (x ∷ xs) in
      let left = drop batch_size (x ∷ xs) in
      let attempt = attempt_batch send 3 batch w in
      let outcome = attempt_batch-paid 3 batch w in
      elim (Bool-cases attempt.0) [
        | inl e ↦ rw e (
            pay_batches-paid fuel left attempt.1
            ∙ ap (λ l. l ++ left) (outcome ∙ ap (λ b. if b then paid w ++ batch else paid w) e)
            ∙ append_assoc (paid w) batch left
            ∙ ap (λ l. paid w ++ l) (take-append-drop batch_size (x ∷ xs)))
        | inr e ↦
            rw e
              (ap (λ l. l ++ x ∷ xs) (outcome ∙ ap (λ b. if b then paid w ++ batch else paid w) e))
      ]

  pub pay_invoices-paid :
      (xs : List Invoice) (w : W)
      → let p = pay_invoices send xs w in paid p.world ++ p.unpaid ≡ paid w ++ xs
  unfolding pay_invoices
  pay_invoices-paid xs w = pay_batches-paid (length xs) xs w

  -- How many invoices of a kind are paid or scheduled.
  abbrev pub known : (Invoice → Bool) → W → Invoices → ℕ
  known q w g = count_if q (paid w) + count_if q (outstanding g)

  known-after_payment :
      (q : Invoice → Bool) (d : Due) (xs : List Invoice) (g : Invoices) (p : Payment W) (w : W)
      (next : W → InvoiceUpdate W)
      → paid p.world ++ p.unpaid ≡ paid w ++ xs
      → (p.succeeded ≡ true → p.unpaid ≡ [])
      → ((v : W) → known q (next v).left_world (next v).scheduled ≡ known q v g)
      → let u = after_payment d p g next in
        known q u.left_world u.scheduled ≡ known q w ((d, xs) ∷ g)
  unfolding after_payment
  known-after_payment q d xs g p w next kept empty rest =
      let counted : count_if q (paid p.world ++ p.unpaid) ≡ count_if q (paid w ++ xs) =
        ap (count_if q) kept in
      let before = count_if-append q (paid w) xs in
      let after = count_if-append q (paid p.world) p.unpaid in
      let all = count_if-append q xs (outstanding g) in
      let left = count_if-append q p.unpaid (outstanding g) in
      elim (Bool-cases p.succeeded) [
        | inl e ↦
            let none_left : count_if q p.unpaid ≡ 0 = ap (count_if q) (empty e) in
            rw e (omega (arith, counted, before, after, all, none_left, rest p.world))
        | inr e ↦ rw e (omega (arith, counted, before, after, all, left))
      ]

  known-update :
      (q : Invoice → Bool) (block round : ℕ) (g : Invoices) (w : W)
      → let u = update_invoice_payments send block round g w in
        known q u.left_world u.scheduled ≡ known q w g
  unfolding update_invoice_payments keep_entry
  known-update q block round [] w = refl
  known-update q block round ((d, xs) ∷ g) w =
      let rest = update_invoice_payments send block round g in
      elim (Bool-cases (is_due block round d)) [
        | inl e ↦ rw e (
            known-after_payment q d xs g (pay_invoices send xs w) w rest (pay_invoices-paid xs w)
              (all_paid (pay_invoices send xs w) (pay_invoices-Ended send xs w))
              (known-update q block round g))
        | inr e ↦ rw e (
            omega (
              arith,
              known-update q block round g w,
              count_if-append q xs (outstanding g),
              count_if-append q xs (outstanding (rest w).scheduled),
            ))
      ]
    where
      all_paid : (p : Payment W) → Ended send p → p.succeeded ≡ true → p.unpaid ≡ []
      all_paid p (inl h) s = h.1
      all_paid p (inr h) s = absurd (cc (s, h.0))

module _ {W : Type 0} (send : List Invoice → Call W SendAnswer) where
  acknowledging-Notes :
      (batch : List Invoice) (w : W × List Invoice)
      → Notes (λ v. v.1) batch w (acknowledging send batch w)
  acknowledging-Notes batch (w, acked) = go (send batch w)
    where
      go :
          (r : Result String SendAnswer × W)
          → Notes (λ v. v.1) batch (w, acked) (noted_answer acked batch r)
      go (ok SendAnswer.done, v) = refl
      go (ok SendAnswer.timeout, v) = refl
      go (err e, v) = refl

  -- Whatever the distributor answers, the payment of invoices ends: what was acknowledged, followed by
  -- what is left, is the invoices in their order; and either none is left, or the payment ended with three
  -- sends in a row of the first batch of those left, none of which was answered as done.
  pub pay_invoices-acknowledged :
      (xs : List Invoice) (w : W)
      → let p = pay_invoices (acknowledging send) xs (w, []) in
        Ended (acknowledging send) p × (p.world.1 ++ p.unpaid ≡ xs)
  pay_invoices-acknowledged xs w = (
    pay_invoices-Ended (acknowledging send) xs (w, []),
    pay_invoices-paid (acknowledging send) (λ v. v.1) acknowledging-Notes xs (w, []),
  )

  -- Wherever an update of the payments fails, each invoice is known as often as before it: in a batch
  -- that was answered as done, or still scheduled. None is dropped unanswered, and none stays scheduled
  -- that was acknowledged.
  pub update_invoice_payments-known :
      (x : Invoice → Bool) (block round : ℕ) (g : Invoices) (w : W) (acked : List Invoice)
      → let u = update_invoice_payments (acknowledging send) block round g (w, acked) in
        count_if x u.left_world.1 + count_if x (outstanding u.scheduled)
        ≡ count_if x acked + count_if x (outstanding g)
  update_invoice_payments-known x block round g w acked =
      known-update (acknowledging send) (λ v. v.1) acknowledging-Notes x block round g (w, acked)
