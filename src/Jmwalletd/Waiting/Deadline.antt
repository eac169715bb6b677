-- ===== src/Jmwalletd/Waiting/Deadline.antt =====
-- The waits end, and a wait that fails has used its budget.
use coinjoin_emulator.Base.{
  ℕ, zero, suc, ◌+◌, ◌-◌, ◌*◌, ◌≤◌, ◌<◌, ◌≡◌, refl, sym, ap, Bool, true, false, Option, none, some,
  leb, Result, ok, err, arith, Bool-cases, inl, inr, ◌⊎◌, some-inj, not_leb→lt, leb→le,
}
use coinjoin_emulator.Jmwalletd.Waiting.{
  Clock, Step, min, first_delay, longest_delay, after_attempt, retry_from, retry_until_deadline,
  displayed, after_create, wait_wallet,
}

-- The clock never goes back, and a sleep takes the time that it is given at least.
pub record IsClock {E S : Type 0} (clock : Clock S) (step : Step E S) : Type 0 where
  pub slept : (d : ℕ) (s : S) → clock.time s + d ≤ clock.time (clock.sleep d s)
  pub went_on : (s : S) → clock.time s ≤ clock.time (step s).1

module _ {E S : Type 0} (clock : Clock S) where
  -- What `after_attempt` returns comes from an attempt that returned, from one that failed past the
  -- deadline, or from the next attempts.
  attempt-ends :
      (deadline fuel delay : ℕ) (next : ℕ → S → Option (Result E (Unit {0}) × S))
      (out : Result E (Unit {0}) × S)
      → 0 < delay
      → deadline - clock.time out.1 < suc fuel
      → ((d : ℕ) (s : S) → clock.time s + d ≤ clock.time (clock.sleep d s))
      → ((d : ℕ) (t : S)
          → 0 < d
          → deadline - clock.time t < fuel
          → (r : Result E (Unit {0}) × S) × (next d t ≡ some r))
      → (r : Result E (Unit {0}) × S) × (after_attempt clock deadline delay next out ≡ some r)
  unfolding after_attempt
  attempt-ends deadline fuel delay next (ok _, s) p b sl h = (_, refl)
  attempt-ends deadline fuel delay next (err e, s) p b sl h =
      elim (Bool-cases (leb deadline (clock.time s))) [
        | inl late ↦ ((err e, s), rw late refl)
        | inr early ↦
            let left = not_leb→lt deadline (clock.time s) early in
            let d = min delay (deadline - clock.time s) in
            let some_time : 0 < d = ground (arith, left, p) in
            let (r, e2) =
              h (min (delay * 2) longest_delay) (clock.sleep d s) (ground (arith, p))
                (omega (arith, sl d s, b, some_time)) in
            (r, rw early e2)
      ]

  retry-ends :
      (step : Step E S) (deadline fuel delay : ℕ) (s : S)
      → IsClock clock step
      → 0 < delay
      → deadline - clock.time s < fuel
      → (out : Result E (Unit {0}) × S) × (retry_from clock step deadline fuel delay s ≡ some out)
  unfolding retry_from
  retry-ends step deadline zero delay s c p b = absurd (omega (arith, b))
  retry-ends step deadline (suc fuel) delay s c p b =
      attempt-ends deadline fuel delay (retry_from clock step deadline fuel) (step s) p
        (omega (arith, c.went_on s, b)) c.slept (λ d t q e. retry-ends step deadline fuel d t c q e)

  -- An attempt that failed before the deadline is not the last one.
  attempt-late :
      (deadline delay : ℕ) (next : ℕ → S → Option (Result E (Unit {0}) × S))
      (out : Result E (Unit {0}) × S) (e : E) (t : S)
      → ((d : ℕ) (u : S) → next d u ≡ some (err e, t) → deadline ≤ clock.time t)
      → after_attempt clock deadline delay next out ≡ some (err e, t)
      → deadline ≤ clock.time t
  unfolding after_attempt
  attempt-late deadline delay next (ok _, s) e t h q = absurd (cc q)
  attempt-late deadline delay next (err x, s) e t h q =
      elim (Bool-cases (leb deadline (clock.time s))) [
        | inl late ↦
            let same : s ≡ t = cc (q, late) in rw (sym same) (leb→le deadline (clock.time s) late)
        | inr early ↦
            h (min (delay * 2) longest_delay) (clock.sleep (min delay (deadline - clock.time s)) s)
              (rw early at q)
      ]

  retry-late :
      (step : Step E S) (deadline fuel delay : ℕ) (s : S) (e : E) (t : S)
      → retry_from clock step deadline fuel delay s ≡ some (err e, t)
      → deadline ≤ clock.time t
  unfolding retry_from
  retry-late step deadline zero delay s e t q = absurd (cc q)
  retry-late step deadline (suc fuel) delay s e t q =
      attempt-late deadline delay (retry_from clock step deadline fuel) (step s) e t
        (λ d u h. retry-late step deadline fuel d u e t h) q

  attempt-later :
      (deadline delay start : ℕ) (next : ℕ → S → Option (Result E (Unit {0}) × S))
      (out r : Result E (Unit {0}) × S)
      → start ≤ clock.time out.1
      → ((d : ℕ) (u : S) → clock.time u + d ≤ clock.time (clock.sleep d u))
      → ((d : ℕ) (u : S) → start ≤ clock.time u → next d u ≡ some r → start ≤ clock.time r.1)
      → after_attempt clock deadline delay next out ≡ some r
      → start ≤ clock.time r.1
  unfolding after_attempt
  attempt-later deadline delay start next (ok _, s) r b sl h q =
      rw (sym (ap (λ x. x.1) (some-inj q))) b
  attempt-later deadline delay start next (err x, s) r b sl h q =
      elim (Bool-cases (leb deadline (clock.time s))) [
        | inl late ↦ rw (sym (ap (λ x. x.1) (some-inj (rw late at q)))) b
        | inr early ↦
            let d = min delay (deadline - clock.time s) in
            h (min (delay * 2) longest_delay) (clock.sleep d s) (omega (arith, b, sl d s))
              (rw early at q)
      ]

  retry-later :
      (step : Step E S) (deadline fuel delay start : ℕ) (s : S) (r : Result E (Unit {0}) × S)
      → IsClock clock step
      → start ≤ clock.time s
      → retry_from clock step deadline fuel delay s ≡ some r
      → start ≤ clock.time r.1
  unfolding retry_from
  retry-later step deadline zero delay start s r c b q = absurd (cc q)
  retry-later step deadline (suc fuel) delay start s r c b q =
      attempt-later deadline delay start (retry_from clock step deadline fuel) (step s) r
        (omega (arith, b, c.went_on s)) c.slept
        (λ d u bu h. retry-later step deadline fuel d start u r c bu h) q

  until-ends :
      (step : Step E S) (deadline : ℕ) (s : S)
      → IsClock clock step
      → (out : Result E (Unit {0}) × S) × (retry_until_deadline clock step deadline s ≡ some out)
  unfolding retry_until_deadline
  until-ends step deadline s c =
      retry-ends step deadline (suc (deadline - clock.time s)) first_delay s c (omega arith)
        (omega arith)

  displayed-ends :
      (o : Option (Result E (Unit {0}) × S)) (out : Result E (Unit {0}) × S)
      → o ≡ some out
      → (r : Bool × S) × (displayed clock o ≡ some r)
  unfolding displayed
  displayed-ends none out q = absurd (cc q)
  displayed-ends (some (ok _, s)) out q = ((true, s), refl)
  displayed-ends (some (err _, s)) out q = ((false, s), refl)

  after_create-ends :
      (display : Step E S) (budget : ℕ) (o : Option (Result E (Unit {0}) × S))
      (out : Result E (Unit {0}) × S)
      → IsClock clock display
      → o ≡ some out
      → (r : Bool × S) × (after_create clock display budget o ≡ some r)
  unfolding after_create
  after_create-ends display budget none out c q = absurd (cc q)
  after_create-ends display budget (some (err _, s)) out c q = ((false, s), refl)
  after_create-ends display budget (some (ok _, s)) out c q =
      let (shown, e) = until-ends display (clock.time s + budget) s c in
      displayed-ends (retry_until_deadline clock display (clock.time s + budget) s) shown e

  -- With a clock that goes on and sleeps that last, waiting for a wallet ends, whatever the creation
  -- and the display do.
  pub wait_wallet-ends :
      (create display : Step E S) (budget : ℕ) (s : S)
      → IsClock clock create
      → IsClock clock display
      → (r : Bool × S) × (wait_wallet clock create display budget s ≡ some r)
  unfolding wait_wallet
  wait_wallet-ends create display budget s c d =
      let (created, e) = until-ends create (clock.time s + budget) s c in
      after_create-ends display budget (retry_until_deadline clock create (clock.time s + budget) s)
        created d e

  displayed-false :
      (o : Option (Result E (Unit {0}) × S)) (t : S)
      → displayed clock o ≡ some (false, t)
      → (e : E) × (o ≡ some (err e, t))
  unfolding displayed
  displayed-false none t q = absurd (cc q)
  displayed-false (some (ok _, s)) t q = absurd (cc q)
  displayed-false (some (err e, s)) t q = (e, cc q)

  after_create-false :
      (display : Step E S) (budget : ℕ) (o : Option (Result E (Unit {0}) × S)) (t : S)
      → after_create clock display budget o ≡ some (false, t)
      → ((e : E) × (o ≡ some (err e, t)))
        ⊎ ((u : S) × (o ≡ some (ok tt, u))
            × (displayed clock (retry_until_deadline clock display (clock.time u + budget) u)
                ≡ some (false, t)))
  unfolding after_create
  after_create-false display budget none t q = absurd (cc q)
  after_create-false display budget (some (err e, s)) t q = inl (e, cc q)
  after_create-false display budget (some (ok tt, s)) t q = inr (s, refl, q)

  -- A wallet is given up only when the budget of the wait, at least, has passed.
  pub wait_wallet-late :
      (create display : Step E S) (budget : ℕ) (s t : S)
      → IsClock clock create
      → wait_wallet clock create display budget s ≡ some (false, t)
      → clock.time s + budget ≤ clock.time t
  unfolding wait_wallet retry_until_deadline
  wait_wallet-late create display budget s t c q =
      let limit = clock.time s + budget in
      let created = retry_until_deadline clock create limit s in
      elim (after_create-false display budget created t q) [
        | inl (e, failed) ↦
            retry-late create limit (suc (limit - clock.time s)) first_delay s e t failed
        | inr (u, returned, shown) ↦
            let end = clock.time u + budget in
            let (e, failed) = displayed-false (retry_until_deadline clock display end u) t shown in
            let before =
              retry-later create limit (suc (limit - clock.time s)) first_delay (clock.time s) s
                (ok tt, u) c (omega arith) returned in
            let last = retry-late display end (suc (end - clock.time u)) first_delay u e t failed in
            omega (arith, before, last)
      ]
