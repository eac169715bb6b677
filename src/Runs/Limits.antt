-- ===== src/Runs/Limits.antt =====
-- When the loops end: the two engines read the limits alike, and a Wasabi run that
-- returns without an error has reached one.
use coinjoin_emulator.Base.{
  ℕ, zero, suc, ◌≡◌, refl, sym, ◌∙◌, ap, Bool, true, false, not, Option, none, some, arith,
  Bool-cases, inl, inr, Result, ok, err, some-inj, String, List,
}
use coinjoin_emulator.Schedule.{WasabiRun, WasabiSchedule, run_limit_reached}
use coinjoin_emulator.Runs.{
  Turn, after_turn, run_while, RunState, limit_reached, WasabiCalls, wasabi_turn, check_mined,
  settle_run, after_loop, run_from, run_wasabi, JoinMarketCalls, within_limits,
}

-- The condition of the JoinMarket engine's loop is the negation of the Wasabi engine's limit.
pub within_limits-not_reached :
    {W : Type 0} (calls : JoinMarketCalls W) (s : RunState W)
    → within_limits calls s ≡ not (limit_reached s)
unfolding within_limits run_limit_reached
within_limits-not_reached calls (r, w) = ground arith

module _ {S : Type 0} (done : S → Bool) (turn : S → Turn S) where
  after_turn-done :
      (next : S → Option (Turn S)) (out : Turn S) (t : S)
      → ((s : S) → next s ≡ some (ok tt, t) → done t ≡ true)
      → after_turn next out ≡ some (ok tt, t)
      → done t ≡ true
  unfolding after_turn
  after_turn-done next (err e, s) t h q = absurd (cc q)
  after_turn-done next (ok _, s) t h q = h s q

  -- A loop that ends without an error has met its condition.
  pub run_while-done :
      (fuel : ℕ) (s t : S) → run_while done turn fuel s ≡ some (ok tt, t) → done t ≡ true
  unfolding run_while
  run_while-done zero s t q = absurd (cc q)
  run_while-done (suc fuel) s t q = elim (Bool-cases (done s)) [
    | inl d ↦
        let same : s ≡ t = ap (λ (x : Turn S). x.1) (some-inj (rw d at q)) in ap done (sym same) ∙ d
    | inr d ↦
        after_turn-done (run_while done turn fuel) (turn s) t (λ u h. run_while-done fuel u t h)
          (rw d at q)
  ]

module _ {W : Type 0} (calls : WasabiCalls W) (clients : List WasabiSchedule) where
  -- What a run that returned has done: it reached a limit, and the node mined three blocks last.
  pub record Settled (t : RunState W) : Type 0 where
    pub reached : limit_reached t ≡ true
    pub last_world : W
    pub mined : calls.mine_block 3 last_world ≡ (ok true, t.1)

  check_mined-eq :
      (r : WasabiRun) (out : Result String Bool × W) (t : RunState W)
      → check_mined calls clients r out ≡ (ok tt, t)
      → (r ≡ t.0) × (out ≡ (ok true, t.1))
  unfolding check_mined
  check_mined-eq r (ok true, w) t q =
      let same : (r, w) ≡ t = ap (λ (x : Turn (RunState W)). x.1) q in
      (ap (λ (p : RunState W). p.0) same, ap (λ (p : RunState W). (ok true, p.1)) same)
  check_mined-eq r (ok false, w) t q = absurd (cc q)
  check_mined-eq r (err e, w) t q = absurd (cc q)

  Settled-run :
      (s t : RunState W)
      → limit_reached s ≡ true
      → settle_run calls clients s ≡ some (ok tt, t)
      → Settled t
  unfolding settle_run
  Settled-run (r, w) t reached q =
      let (same, mined) = check_mined-eq r (calls.mine_block 3 w) t (some-inj q) in
      record { reached = ap run_limit_reached (sym same) ∙ reached; last_world = w; mined = mined }

  Settled-loop :
      (o : Option (Turn (RunState W))) (t : RunState W)
      → ((s : RunState W) → o ≡ some (ok tt, s) → limit_reached s ≡ true)
      → after_loop calls clients o ≡ some (ok tt, t)
      → Settled t
  unfolding after_loop after_turn
  Settled-loop none t h q = absurd (cc q)
  Settled-loop (some (err e, s)) t h q = absurd (cc q)
  Settled-loop (some (ok _, s)) t h q = Settled-run s t (h s refl) q

  Settled-from :
      (fuel : ℕ) (r : WasabiRun) (o : Option ℕ × W) (t : RunState W)
      → run_from calls clients fuel r o ≡ some (ok tt, t)
      → Settled t
  unfolding run_from
  Settled-from fuel r (none, w) t q = absurd (cc q)
  Settled-from fuel r (some initial, w) t q =
      Settled-loop (run_while limit_reached (wasabi_turn calls clients initial) fuel (r, w)) t
        (λ s h. run_while-done limit_reached (wasabi_turn calls clients initial) fuel (r, w) s h) q

  -- A Wasabi run that returns without an error has reached a limit, and then the node mined three
  -- blocks, which is the last that the run does.
  pub run_wasabi-Settled :
      (fuel : ℕ) (s t : RunState W) → run_wasabi calls clients fuel s ≡ some (ok tt, t) → Settled t
  unfolding run_wasabi
  run_wasabi-Settled fuel (r, w) t q = Settled-from fuel r (calls.get_block_count w) t q
