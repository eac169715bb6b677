-- ===== src/Transfers/Unsent.antt =====
-- A payment ends within its budget, and a round of payments returns even when none of them was made.
use coinjoin_emulator.Base.{
  ℕ, zero, suc, ◌+◌, ◌-◌, ◌*◌, ◌≤◌, ◌≡◌, refl, ◌∙◌, Bool, true, false, String, Option, none, some,
  List, [], ◌∷◌, ltb, Result, ok, err, arith, Bool-cases, inl, inr, if_both, subst,
}
use coinjoin_emulator.Jmwalletd.Waiting.{Clock}
use coinjoin_emulator.Transfers.{
  Request, send_budget, retry_pause, payment_pause, after_request, send_until, simple_send,
  after_funding, send,
}

-- The clock never goes back, and a sleep takes the time that it is given at least.
pub record IsClock {S : Type 0} (clock : Clock S) (direct_send : Request S) : Type 0 where
  pub slept : (d : ℕ) (s : S) → clock.time s + d ≤ clock.time (clock.sleep d s)
  pub went_on : (to : String) (v : ℕ) (s : S) → clock.time s ≤ clock.time (direct_send to v s).1

-- A wallet that pays nothing on request.
pub record IsDown {S : Type 0} (clock : Clock S) (direct_send : Request S) (paid : S → ℕ)
    : Type 0 where
  pub unpaid : (to : String) (v : ℕ) (s : S) → paid (direct_send to v s).1 ≡ paid s
  pub slept_unpaid : (d : ℕ) (s : S) → paid (clock.sleep d s) ≡ paid s

module _ {S : Type 0} (clock : Clock S) (direct_send : Request S) where
  -- How a payment ends: with an answer, or once its budget is used.
  abbrev pub HasEnded : ℕ → Option (Bool × S) → Type 0
  HasEnded start none = ⊥
  HasEnded start (some (true, s)) = Unit
  HasEnded start (some (false, s)) = start + send_budget ≤ clock.time s

  after_request-HasEnded :
      (start bound : ℕ) (next : S → Option (Bool × S)) (r : Result String (Unit {0}) × S)
      → ((d : ℕ) (s : S) → clock.time s + d ≤ clock.time (clock.sleep d s))
      → bound ≤ clock.time r.1 + retry_pause
      → ((s : S) → bound ≤ clock.time s → HasEnded start (next s))
      → HasEnded start (after_request clock direct_send next r)
  unfolding after_request
  after_request-HasEnded start bound next (ok _, s) slept late step = tt
  after_request-HasEnded start bound next (err _, s) slept late step =
      step (clock.sleep retry_pause s) (omega (arith, late, slept retry_pause s))

  send_until-HasEnded :
      (c : IsClock clock direct_send) (to : String) (v start fuel : ℕ) (s : S)
      → start ≤ clock.time s
      → start + send_budget ≤ clock.time s + fuel * retry_pause
      → HasEnded start (send_until clock direct_send to v start (suc fuel) s)
  unfolding send_until
  send_until-HasEnded c to v start zero s began enough =
      let over : ltb (clock.time s - start) send_budget ≡ false = ground (arith, enough, began) in
      rw over (omega (arith, enough))
  send_until-HasEnded c to v start (suc fuel) s began enough =
      elim (Bool-cases (ltb (clock.time s - start) send_budget)) [
        | inl more ↦ rw more (
            after_request-HasEnded start (clock.time s + retry_pause)
              (send_until clock direct_send to v start (suc fuel)) (direct_send to v s) c.slept
              (omega (arith, c.went_on to v s))
              (λ t later.
                send_until-HasEnded c to v start fuel t (omega (arith, later, began))
                  (omega (arith, later, enough))))
        | inr over ↦ rw over (ground (arith, over, began))
      ]

  simple_send-HasEnded :
      (c : IsClock clock direct_send) (to : String) (v : ℕ) (s : S)
      → HasEnded (clock.time s) (simple_send clock direct_send to v s)
  unfolding simple_send
  simple_send-HasEnded c to v s =
      send_until-HasEnded c to v (clock.time s) 15 s (omega arith) (omega arith)

  after_funding-ends :
      (next : S → Option S) (o : Option (Bool × S)) (start : ℕ)
      → HasEnded start o
      → ((s : S) → (t : S) × (next s ≡ some t))
      → (t : S) × (after_funding clock direct_send next o ≡ some t)
  unfolding after_funding
  after_funding-ends next none start h step = absurd h
  after_funding-ends next (some (_, s)) start h step = step (clock.sleep payment_pause s)

  -- Every payment ends, whatever the wallet answers.
  send-ends :
      (c : IsClock clock direct_send) (fundings : List (String × ℕ)) (s : S)
      → (t : S) × (send clock direct_send fundings s ≡ some t)
  unfolding send
  send-ends c [] s = (s, refl)
  send-ends c ((to, v) ∷ fundings) s =
      after_funding-ends (send clock direct_send fundings) (simple_send clock direct_send to v s)
        (clock.time s) (simple_send-HasEnded c to v s) (send-ends c fundings)

  module _ (paid : S → ℕ) (d : IsDown clock direct_send paid) where
    -- What was paid when something comes back.
    abbrev HasPaid : ℕ → Option S → Type 0
    HasPaid before none = Unit
    HasPaid before (some t) = paid t ≡ before

    abbrev HasAnswered : ℕ → Option (Bool × S) → Type 0
    HasAnswered before none = Unit
    HasAnswered before (some r) = paid r.1 ≡ before

    after_request-unpaid :
        (before : ℕ) (next : S → Option (Bool × S)) (r : Result String (Unit {0}) × S)
        → paid r.1 ≡ before
        → ((s : S) → paid s ≡ before → HasAnswered before (next s))
        → HasAnswered before (after_request clock direct_send next r)
    unfolding after_request
    after_request-unpaid before next (ok _, s) same step = same
    after_request-unpaid before next (err _, s) same step =
        step (clock.sleep retry_pause s) (d.slept_unpaid retry_pause s ∙ same)

    send_until-unpaid :
        (to : String) (v start fuel before : ℕ) (s : S)
        → paid s ≡ before
        → HasAnswered before (send_until clock direct_send to v start fuel s)
    unfolding send_until
    send_until-unpaid to v start zero before s same = tt
    send_until-unpaid to v start (suc fuel) before s same =
        if_both (HasAnswered before) (ltb (clock.time s - start) send_budget)
          (after_request clock direct_send (send_until clock direct_send to v start fuel)
            (direct_send to v s))
          (some (false, s))
          (after_request-unpaid before (send_until clock direct_send to v start fuel)
            (direct_send to v s) (d.unpaid to v s ∙ same)
            (λ t kept. send_until-unpaid to v start fuel before t kept))
          same

    after_funding-unpaid :
        (before : ℕ) (next : S → Option S) (o : Option (Bool × S))
        → HasAnswered before o
        → ((s : S) → paid s ≡ before → HasPaid before (next s))
        → HasPaid before (after_funding clock direct_send next o)
    unfolding after_funding
    after_funding-unpaid before next none h step = tt
    after_funding-unpaid before next (some (_, s)) h step =
        step (clock.sleep payment_pause s) (d.slept_unpaid payment_pause s ∙ h)

    send-unpaid :
        (before : ℕ) (fundings : List (String × ℕ)) (s : S)
        → paid s ≡ before
        → HasPaid before (send clock direct_send fundings s)
    unfolding send simple_send
    send-unpaid before [] s same = same
    send-unpaid before ((to, v) ∷ fundings) s same =
        after_funding-unpaid before (send clock direct_send fundings)
          (simple_send clock direct_send to v s)
          (send_until-unpaid to v (clock.time s) 16 before s same)
          (λ t kept. send-unpaid before fundings t kept)

    -- With a wallet whose requests pay nothing, a round of payments returns as any other does, with no
    -- error and nothing paid.
    pub send-IsDown :
        IsClock clock direct_send
        → (fundings : List (String × ℕ)) (s : S)
        → (t : S) × (send clock direct_send fundings s ≡ some t) × (paid t ≡ paid s)
    send-IsDown c fundings s =
        let (t, e) = send-ends c fundings s in
        (t, e, subst (HasPaid (paid s)) e (send-unpaid (paid s) fundings s refl))
