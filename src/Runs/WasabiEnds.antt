-- ===== src/Runs/WasabiEnds.antt =====
-- With a block limit, and a chain that grows at each sleep, the Wasabi run ends.
use coinjoin_emulator.Base.{ℕ, ◌+◌, ◌≤◌, ◌≡◌, Option, none, some, List, Result, ok, err, String}
use coinjoin_emulator.Schedule.{WasabiRun, WasabiSchedule}
use coinjoin_emulator.Runs.{Turn, RunState, WasabiCalls}

-- What a count of the chain answers: nothing, or a height that the chain had during the call.
abbrev pub Reads : {W : Type 0} → (W → ℕ) → ℕ → Option ℕ × W → Type 0
Reads height h (none, w) = h ≤ height w
Reads height h (some n, w) = (h ≤ n) × (n ≤ height w)

-- A chain that no call lowers and each sleep raises. Any call may raise.
pub record Rises {W : Type 0} (calls : WasabiCalls W) (height : W → ℕ) : Type 0 where
  pub counted : (w : W) → Reads height (height w) (calls.get_block_count w)
  pub asked : (w : W) → height w ≤ height (calls.get_current_round w).1
  pub invoiced : (r : WasabiRun) (w : W) → height w ≤ height (calls.pay_due_invoices r w).1
  pub spent : (r : WasabiRun) (w : W) → height w ≤ height (calls.pay_postmix_spends r w).1
  pub started : (c : WasabiSchedule) (w : W) → height w ≤ height (calls.start_coinjoin c w).1
  pub stopped : (c : WasabiSchedule) (w : W) → height w ≤ height (calls.stop_coinjoin c w).1
  pub slept : (w : W) → height w + 1 ≤ height (calls.sleep w)

module _ {W : Type 0} (calls : WasabiCalls W) (height : W → ℕ) (g : Rises calls height) where
  module _ (clients : List WasabiSchedule) (limit initial : ℕ) where
    -- After `k` turns the chain has grown by `k` blocks, and the last of them but one is noted.
    abbrev Stage : ℕ → RunState W → Type 0
    Stage k s =
        (initial + k ≤ height s.1) × ((k ≤ s.0.current_block + 1) × (s.0.block_limit ≡ limit))

    abbrev Leads : ℕ → Turn (RunState W) → Type 0
    Leads k (err e, s) = Unit
    Leads k (ok _, s) = Stage k s

    -- Updates that return have slept last.
    abbrev HasSlept : ℕ → Result String (Unit {0}) × W → Type 0
    HasSlept h (err e, w) = Unit
    HasSlept h (ok _, w) = h + 1 ≤ height w
