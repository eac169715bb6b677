-- ===== src/PostmixSpends/Outcomes.antt =====
-- What an attempt does to its spend, and to the world when the wallet is short of mixed coins.
use coinjoin_emulator.Base.{
  ℕ, ◌+◌, ◌≡◌, refl, ap, false, String, some, List, Result, ok, err, arith, ◌⊎◌, inl, inr,
}
use coinjoin_emulator.PostmixSpends.{
  SpendStatus, Payout, SentRecord, PostmixSpend, postmix_retry_seconds, is_sent, due, mark_failed,
  mark_sent, Call, then_call, SpendingClient, FundingNode, requested, pay_out, record_outcome,
  send_spend, update_spend,
}

then_call-err :
    {W A B : Type 0} (r : Result String A × W) (next : A → Call W B) (e : String)
    → r.0 ≡ err e
    → then_call r next ≡ (err e, r.1)
then_call-err (err x, w) next e h = let same : x ≡ e = cc h in ap (λ y. (err y, w)) same
then_call-err (ok x, w) next e h = absurd (cc h)

module _ {W : Type 0} (node : FundingNode W) where
  -- If the wallet's mixed coins do not cover the spend, the attempt ends there: its error is that of
  -- the check and its world the check's, so the wallet is not stopped and nothing is sent.
  pub pay_out-check :
      (client : SpendingClient W) (s : PostmixSpend) (w : W) (e : String)
      → (client.check_mixed_coins (requested node s) s.min_anon_score w).0 ≡ err e
      → pay_out node client s w
        ≡ (err e, (client.check_mixed_coins (requested node s) s.min_anon_score w).1)
  unfolding pay_out
  pay_out-check client s w e h =
      then_call-err (client.check_mixed_coins (requested node s) s.min_anon_score w) _ e h

  -- The two outcomes of an attempt: paid, and kept as sent with the round and the block; or failed,
  -- with the error, to be tried again after the pause.
  abbrev pub Attempted : ℕ → ℕ → PostmixSpend → PostmixSpend → W → Type 0
  Attempted block round s s' w' =
      (s'.attempts ≡ s.attempts + 1)
      × (((s'.status ≡ SpendStatus.sent)
            × ((r : SentRecord) × (s'.payment ≡ some r)
                × (r.sent_round ≡ round)
                × (r.sent_block ≡ block)))
          ⊎ ((s'.status ≡ SpendStatus.failed)
              × (s'.payment ≡ s.payment)
              × (s'.next_attempt_at ≡ node.time w' + postmix_retry_seconds)))

  record_outcome-Attempted :
      (block round : ℕ) (s : PostmixSpend) (r : Result String (Payout × String) × W)
      → let (s', w') = record_outcome node block round (record s { attempts = s.attempts + 1 }) r in
        Attempted block round s s' w'
  unfolding record_outcome mark_sent mark_failed
  record_outcome-Attempted block round s (err e, w) = (refl, inr (refl, refl, refl))
  record_outcome-Attempted block round s (ok (paid, d), w) =
      (refl, inl (refl, (_, refl, refl, refl)))

  -- An attempt counts itself, and the spend is sent or failed after it.
  pub send_spend-Attempted :
      (client : SpendingClient W) (block round : ℕ) (s : PostmixSpend) (w : W)
      → let (s', w') = send_spend node client block round s w in Attempted block round s s' w'
  unfolding send_spend
  send_spend-Attempted client block round s w =
      record_outcome-Attempted block round s
        (pay_out node client (record s { attempts = s.attempts + 1 }) w)

  -- A spend that is not due is left as it is, and so is the world.
  pub update_spend_not_due :
      (clients : List (SpendingClient W)) (block round : ℕ) (s : PostmixSpend) (w : W)
      → due s block round (node.time w) ≡ false
      → update_spend node clients block round s w ≡ some (s, w)
  unfolding update_spend
  update_spend_not_due clients block round s w h = rw h

  -- A spend that was sent is never due again.
  pub due-sent :
      (s : PostmixSpend) (block round now : ℕ)
      → s.status ≡ SpendStatus.sent
      → due s block round now ≡ false
  unfolding due is_sent
  due-sent s block round now h = ground (arith, h)
