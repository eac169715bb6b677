-- ===== src/Runs.antt =====
-- The main loops: `run_engine` of manager/engine/wasabi_engine.py and of
-- manager/engine/joinmarket_engine.py. What a turn asks the node and the backend for, and the updates
-- of a turn, are parameters over a world. A block count below the first one, which a growing chain
-- does not answer, reads as no block.
pub mod Limits
pub mod Ends
pub mod WasabiEnds
mod Examples
use coinjoin_emulator.Base.{
  ℕ, zero, suc, ◌+◌, ◌-◌, Bool, true, false, not, ◌&&◌, ◌||◌, String, Option, none, some, List, [],
  ◌∷◌, ltb, ◌==◌, if◌then◌else◌, Result, ok, err, or_default,
}
use coinjoin_emulator.PostmixSpends.{Call, then_call}
use coinjoin_emulator.Schedule.{WasabiRun, WasabiSchedule, run_limit_reached, split_clients}

-- What a turn of a loop leaves: an outcome, and the state.
abbrev pub Turn : Type 0 → Type 0
Turn S = Result String (Unit {0}) × S

-- An error ends the loop.
unfoldable pub after_turn : {S : Type 0} → (S → Option (Turn S)) → Turn S → Option (Turn S)
after_turn next (err e, s) = some (err e, s)
after_turn next (ok _, s) = next s

-- `while not done: turn`, on fuel: nothing comes back when the fuel is used.
unfoldable pub run_while : {S : Type 0} → (S → Bool) → (S → Turn S) → ℕ → S → Option (Turn S)
unfolding after_turn
run_while done turn zero s = none
run_while done turn (suc fuel) s =
    let rest = after_turn (run_while done turn fuel) (turn s) in
    if done s then some (ok tt, s) else rest

unfoldable pub or_again : {W : Type 0} → (W → Option ℕ × W) → Option ℕ × W → Option ℕ × W
or_again next (some v, w) = (some v, w)
or_again next (none, w) = next w

-- A count that may raise, asked for up to so many times.
unfoldable pub try_times : {W : Type 0} → ℕ → (W → Option ℕ × W) → W → Option ℕ × W
unfolding or_again
try_times zero ask w = (none, w)
try_times (suc n) ask w = or_again (try_times n ask) (ask w)

-- The limits and counters of a run, and the world.
abbrev pub RunState : Type 0 → Type 0
RunState W = WasabiRun × W

abbrev pub limit_reached : {W : Type 0} → RunState W → Bool
limit_reached s = run_limit_reached s.0

-- What the Wasabi engine calls in a turn.
pub record WasabiCalls (W : Type 0) : Type 0 where
  pub get_current_round : W → Option ℕ × W
  pub get_block_count : W → Option ℕ × W
  pub pay_due_invoices : WasabiRun → Call W (Unit {0})
  pub pay_postmix_spends : WasabiRun → Call W (Unit {0})
  pub chunks : List WasabiSchedule → List (List WasabiSchedule)
  pub start_coinjoin : WasabiSchedule → Call W (Unit {0})
  pub stop_coinjoin : WasabiSchedule → Call W (Unit {0})
  pub sleep : W → W
  pub mine_block : ℕ → Call W Bool

abbrev first_error : Result String (Unit {0}) → Result String (Unit {0}) → Result String (Unit {0})
first_error (err e) later = err e
first_error (ok _) later = later

-- A task of a pool: an error ends it.
unfoldable pub run_chunk :
    {W : Type 0} → (WasabiSchedule → Call W (Unit {0})) → List WasabiSchedule → Call W (Unit {0})
run_chunk f [] w = (ok tt, w)
run_chunk f (c ∷ cs) w = then_call (f c w) (λ _. run_chunk f cs)

-- `pool.starmap`, over the chunks that the pool makes: every chunk is run, and the first error is raised
-- afterwards. What Python does in parallel is done in order.
unfoldable pub starmap :
    {W : Type 0}
    → (WasabiSchedule → Call W (Unit {0}))
    → List (List WasabiSchedule)
    → Call W (Unit {0})
unfolding run_chunk
starmap f [] w = (ok tt, w)
starmap f (c ∷ cs) w =
    let (out, w1) = run_chunk f c w in
    let (later, w2) = starmap f cs w1 in (first_error out later, w2)

module _ {W : Type 0} (calls : WasabiCalls W) (clients : List WasabiSchedule) where
  -- `update_coinjoins`: the clients to start, then those to stop.
  unfoldable pub update_wasabi_coinjoins : WasabiRun → Call W (Unit {0})
  unfolding starmap split_clients
  update_wasabi_coinjoins r w =
      let (start, stop) = split_clients r clients in
      then_call (starmap calls.start_coinjoin (calls.chunks start) w)
        (λ _. starmap calls.stop_coinjoin (calls.chunks stop))

  unfoldable pub wasabi_updates : WasabiRun → W → Turn (RunState W)
  unfolding update_wasabi_coinjoins
  wasabi_updates r w =
      let (out, v) = then_call (calls.pay_due_invoices r w) (λ _ w1.
        then_call (calls.pay_postmix_spends r w1)
          (λ _ w2. then_call (update_wasabi_coinjoins r w2) (λ _ w3. (ok tt, calls.sleep w3)))) in
      (out, (r, v))

  unfoldable pub with_blocks : ℕ → WasabiRun → Option ℕ × W → Turn (RunState W)
  unfolding wasabi_updates
  with_blocks initial r (none, w) =
      (err "Could not refresh Wasabi block count after 3 attempts", (r, w))
  with_blocks initial r (some n, w) = wasabi_updates (record r { current_block = n - initial }) w

  unfoldable pub with_rounds : ℕ → WasabiRun → Option ℕ × W → Turn (RunState W)
  unfolding with_blocks try_times
  with_rounds initial r (none, w) =
      (err "Could not refresh Wasabi round count after 3 attempts", (r, w))
  with_rounds initial r (some n, w) =
      with_blocks initial (record r { current_round = n }) (try_times 3 calls.get_block_count w)

  -- One turn of the loop of `run_engine`.
  unfoldable pub wasabi_turn : ℕ → RunState W → Turn (RunState W)
  unfolding with_rounds try_times
  wasabi_turn initial (r, w) = with_rounds initial r (try_times 3 calls.get_current_round w)

  abbrev pub settlement_blocks : ℕ
  settlement_blocks = 3

  -- `mine_settlement_blocks`
  unfoldable pub check_mined : WasabiRun → Result String Bool × W → Turn (RunState W)
  check_mined r (ok true, w) = (ok tt, (r, w))
  check_mined r (ok false, w) = (err "Bitcoin node did not mine 3 settlement blocks", (r, w))
  check_mined r (err e, w) = (err e, (r, w))

  unfoldable pub settle_run : RunState W → Option (Turn (RunState W))
  unfolding check_mined
  settle_run (r, w) = some (check_mined r (calls.mine_block 3 w))

  unfoldable pub after_loop : Option (Turn (RunState W)) → Option (Turn (RunState W))
  unfolding after_turn settle_run
  after_loop none = none
  after_loop (some t) = after_turn settle_run t

  unfoldable pub run_from : ℕ → WasabiRun → Option ℕ × W → Option (Turn (RunState W))
  unfolding run_while wasabi_turn after_loop
  run_from fuel r (none, w) = some (err "no block count", (r, w))
  run_from fuel r (some initial, w) =
      after_loop (run_while limit_reached (wasabi_turn initial) fuel (r, w))

  -- `WasabiEngine.run_engine`
  unfoldable pub run_wasabi : ℕ → RunState W → Option (Turn (RunState W))
  unfolding run_from
  run_wasabi fuel (r, w) = run_from fuel r (calls.get_block_count w)

-- What the JoinMarket engine calls in a turn; the coinjoin update answers the round counter that it
-- leaves.
pub record JoinMarketCalls (W : Type 0) : Type 0 where
  pub block_count : W → Option ℕ × W
  pub invoice_payments : ℕ → ℕ → Call W (Unit {0})
  pub postmix_spends : ℕ → ℕ → Call W (Unit {0})
  pub coinjoins : ℕ → ℕ → W → ℕ × W
  pub pause : W → W
  pub mine : ℕ → Call W Bool

module _ {W : Type 0} (calls : JoinMarketCalls W) where
  -- The condition of the loop.
  unfoldable pub within_limits : RunState W → Bool
  within_limits (r, w) =
      (r.round_limit == 0 || ltb r.current_round r.round_limit)
      && (r.block_limit == 0 || ltb r.current_block r.block_limit)

  -- The updates of a turn, whose errors are only reported.
  unfoldable pub safe_updates : WasabiRun → W → RunState W
  safe_updates r w =
      let w1 = (calls.invoice_payments r.current_block r.current_round w).1 in
      let w2 = (calls.postmix_spends r.current_block r.current_round w1).1 in
      let (round, w3) = calls.coinjoins r.current_block r.current_round w2 in
      (record r { current_round = round }, calls.pause w3)

  -- Without a count after three attempts the block is that of the turn before.
  unfoldable pub noted_block : ℕ → WasabiRun → Option ℕ → WasabiRun
  noted_block initial r none = r
  noted_block initial r (some n) = record r { current_block = n - initial }

  unfoldable pub joinmarket_turn : ℕ → RunState W → Turn (RunState W)
  unfolding safe_updates noted_block try_times
  joinmarket_turn initial (r, w) =
      let (n, v) = try_times 3 calls.block_count w in
      (ok tt, safe_updates (noted_block initial r n) v)

  unfoldable pub warm_up : ℕ → Call W (Unit {0})
  warm_up zero w = (ok tt, w)
  warm_up (suc n) w = then_call (calls.mine 1 w) (λ _. warm_up n)

  -- `start_block_clock`: five blocks, and a count, or 0 where it raises.
  unfoldable pub start_block_clock : Call W ℕ
  unfolding warm_up
  start_block_clock w =
      then_call (warm_up 5 w) (λ _ v. let (n, u) = calls.block_count v in (ok (or_default n 0), u))

  -- The confirmations after the loop; the answer is not looked at.
  unfoldable pub confirm_last : RunState W → Option (Turn (RunState W))
  confirm_last (r, w) =
      let (out, v) = then_call (calls.mine 3 (calls.pause w)) (λ _ u. (ok tt, u)) in
      some (out, (r, v))

  unfoldable pub after_joinmarket : Option (Turn (RunState W)) → Option (Turn (RunState W))
  unfolding after_turn confirm_last
  after_joinmarket none = none
  after_joinmarket (some t) = after_turn confirm_last t

  unfoldable pub run_clocked : ℕ → WasabiRun → Result String ℕ × W → Option (Turn (RunState W))
  unfolding run_while joinmarket_turn after_joinmarket within_limits
  run_clocked fuel r (err e, w) = some (err e, (r, w))
  run_clocked fuel r (ok initial, w) =
      after_joinmarket
        (run_while (λ s. not (within_limits s)) (joinmarket_turn initial) fuel (r, w))

  -- `JoinmarketEngine.run_engine`
  unfoldable pub run_joinmarket : ℕ → RunState W → Option (Turn (RunState W))
  unfolding run_clocked start_block_clock
  run_joinmarket fuel (r, w) = run_clocked fuel r (start_block_clock w)
