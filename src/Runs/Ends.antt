-- ===== src/Runs/Ends.antt =====
-- With a block limit, and a chain that grows at each pause, the JoinMarket run ends.
use native.Mathlib.Decide.{dec_lt}
use coinjoin_emulator.Base.{
  ℕ, zero, suc, ◌+◌, ◌≤◌, ◌<◌, ◌≡◌, refl, subst, Bool, true, Option, some, arith, Bool-cases, inl,
  inr, Result, ok, err, String,
}
use coinjoin_emulator.Runs.{Turn, after_turn, run_while, RunState, JoinMarketCalls}

module _ {S : Type 0} (done : S → Bool) (turn : S → Turn S) (I : ℕ → S → Type 0) (last : ℕ) where
  -- A turn that raises ends the loop; any other leads to a stage.
  abbrev pub Leads : ℕ → Turn S → Type 0
  Leads k (err e, s) = Unit
  Leads k (ok _, s) = I k s

  after_turn-ends :
      (next : S → Option (Turn S)) (out : Turn S) (k : ℕ)
      → Leads k out
      → ((s : S) → I k s → (r : Turn S) × (next s ≡ some r))
      → (r : Turn S) × (after_turn next out ≡ some r)
  unfolding after_turn
  after_turn-ends next (err e, s) k i h = ((err e, s), refl)
  after_turn-ends next (ok _, s) k i h = h s i

  -- A loop whose turns lead through the stages of an invariant, the last of which meets the
  -- condition, ends within its fuel.
  pub run_while-ends :
      ((k : ℕ) (s : S) → I k s → Leads (suc k) (turn s))
      → ((s : S) → I last s → done s ≡ true)
      → (fuel k : ℕ) (s : S) → I k s
      → k ≤ last
      → last < fuel + k
      → (r : Turn S) × (run_while done turn fuel s ≡ some r)
  unfolding run_while
  run_while-ends step meets zero k s i low enough = absurd (omega arith)
  run_while-ends step meets (suc fuel) k s i low enough = elim (Bool-cases (done s)) [
    | inl d ↦ ((ok tt, s), rw d refl)
    | inr d ↦ elim (dec_lt k last) [
      | yes more ↦
          let (r, e) =
            after_turn-ends (run_while done turn fuel) (turn s) (suc k) (step k s i)
              (λ t j. run_while-ends step meets fuel (suc k) t j more (omega arith)) in
          (r, rw d e)
      | no end ↦
          let same : k ≡ last = omega (arith, low) in
          absurd (cc (d, meets s (subst (λ n. I n s) same i)))
    ]
  ]

-- A node that answers its block count, which no call lowers and each pause raises.
pub record Grows {W : Type 0} (calls : JoinMarketCalls W) : Type 0 where
  pub height : W → ℕ
  pub answers : (w : W) → (calls.block_count w).0 ≡ some (height w)
  pub counted : (w : W) → height w ≤ height (calls.block_count w).1
  pub invoiced : (b r : ℕ) (w : W) → height w ≤ height (calls.invoice_payments b r w).1
  pub spent : (b r : ℕ) (w : W) → height w ≤ height (calls.postmix_spends b r w).1
  pub joined : (b r : ℕ) (w : W) → height w ≤ height (calls.coinjoins b r w).1
  pub paused : (w : W) → height w + 1 ≤ height (calls.pause w)

module _ {W : Type 0} (calls : JoinMarketCalls W) (g : Grows calls) where
  -- After `k` turns the chain has grown by `k` blocks, and the last of them but one is noted.
  abbrev Stage : ℕ → ℕ → ℕ → RunState W → Type 0
  Stage limit initial k s =
      (initial + k ≤ g.height s.1) × ((k ≤ s.0.current_block + 1) × (s.0.block_limit ≡ limit))

  -- A clock that returns has answered a height of the chain.
  Clocked : Result String ℕ × W → Type 0
  Clocked (err e, w) = Unit
  Clocked (ok initial, w) = initial ≤ g.height w
