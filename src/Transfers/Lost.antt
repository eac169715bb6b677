-- ===== src/Transfers/Lost.antt =====
-- The payments of the engine when the distributor is a JoinMarket wallet: its `send` answers None, which
-- `pay_invoices` of manager/engine/engine_base.py takes for a success.
use coinjoin_emulator.Base.{
  ℕ, zero, suc, ◌≤◌, ◌≡◌, refl, ◌∙◌, true, String, Option, none, some, List, [], ◌∷◌, Result, ok,
  arith, length, take, drop, length-drop,
}
use coinjoin_emulator.Jmwalletd.Waiting.{Clock}
use coinjoin_emulator.Funding.{
  Invoice, Payment, SendAnswer, batch_size, attempt_batch, pay_batches, pay_invoices,
}
use coinjoin_emulator.PostmixSpends.{Call}
use coinjoin_emulator.Transfers.{Request, send}
use coinjoin_emulator.Transfers.Unsent.{IsClock, IsDown, send-IsDown}

-- What the engine reads of a call that returned.
unfoldable pub answered : {S : Type 0} → S → Option S → Result String SendAnswer × S
answered s none = (ok SendAnswer.timeout, s)
answered s (some t) = (ok SendAnswer.done, t)

module _ {S : Type 0} (clock : Clock S) (direct_send : Request S) where
  unfoldable pub distribute : List Invoice → Call S SendAnswer
  unfolding answered
  distribute batch s = answered s (send clock direct_send batch s)

  module _ (paid : S → ℕ) (c : IsClock clock direct_send) (d : IsDown clock direct_send paid) where
    -- A payment that is taken for made, of which nothing was paid.
    abbrev IsLost : ℕ → Payment S → Type 0
    IsLost before p = (p.succeeded ≡ true) × (p.unpaid ≡ []) × (paid p.world ≡ before)

    attempt_lost :
        (batch : List Invoice) (s : S)
        → (t : S) × (attempt_batch (distribute) 3 batch s ≡ (true, t)) × (paid t ≡ paid s)
    unfolding attempt_batch distribute answered
    attempt_lost batch s =
        let (t, e, same) = send-IsDown clock direct_send paid d c batch s in (t, rw e refl, same)

    batches-IsLost :
        (fuel before : ℕ) (xs : List Invoice) (s : S)
        → length xs ≤ fuel
        → paid s ≡ before
        → IsLost before (pay_batches (distribute) fuel xs s)
    unfolding pay_batches
    batches-IsLost fuel before [] s enough same = (refl, refl, same)
    batches-IsLost zero before (x ∷ xs) s enough same = absurd (omega (arith, enough))
    batches-IsLost (suc fuel) before (x ∷ xs) s enough same =
        let (t, e, kept) = attempt_lost (take batch_size (x ∷ xs)) s in
        rw e (
          batches-IsLost fuel before (drop batch_size (x ∷ xs)) t
            (omega (arith, enough, length-drop 4 xs)) (kept ∙ same))

    -- With a JoinMarket distributor whose requests pay nothing, the engine takes every invoice for
    -- paid, with none left to pay and nothing paid.
    pub pay_invoices-IsLost :
        (xs : List Invoice) (s : S) → IsLost (paid s) (pay_invoices (distribute) xs s)
    unfolding pay_invoices
    pay_invoices-IsLost xs s = batches-IsLost (length xs) (paid s) xs s (omega arith) refl
