-- ===== src/Schedule/Agreement.antt =====
-- The two engines read a schedule alike, and what a client's pause depends on.
use coinjoin_emulator.Base.{
  ℕ, ◌≡◌, refl, ap, false, not, ◌&&◌, List, [], ◌∷◌, ◌==◌, any, arith, ◌≤◌, ◌<◌, inl, inr, ◌↔◌,
  keep, Bool-cases,
}
use coinjoin_emulator.Schedule.{
  WalletSchedule, outside_schedule, Pacing, is_paused, WasabiRun, run_limit_reached, WasabiSchedule,
  start_condition, split_clients,
}

-- A block and a round are inside a schedule: not before its start, and before its stop, if it has
-- one.
abbrev pub Inside : WalletSchedule → ℕ → ℕ → Type 0
Inside s block round =
    (s.start_block ≤ block)
    × (s.start_round ≤ round)
    × (0 < s.stop_block → block < s.stop_block)
    × (0 < s.stop_round → round < s.stop_round)

-- The test of a JoinMarket client finds exactly the blocks and rounds inside the schedule.
pub outside_schedule_iff :
    (s : WalletSchedule) (block round : ℕ)
    → (outside_schedule s block round ≡ false) ↔ Inside s block round
unfolding outside_schedule
outside_schedule_iff s block round = (
  λ h. (ground arith, ground arith, λ p. ground arith, λ p. ground arith),
  λ h. let (a, b, c, d) = h in ground arith,
)

-- Wasabi's engine starts a client exactly when the run's limit is not reached, the block and the
-- round are not outside the schedule in JoinMarket's sense, and the round is not to be skipped.
pub start_condition-eq :
    (r : WasabiRun) (c : WasabiSchedule)
    → start_condition r c ≡ (
        not (run_limit_reached r)
        && (not (outside_schedule c.times r.current_block r.current_round)
            && not (any (λ s. s == r.current_round) c.skip_rounds)))
unfolding start_condition outside_schedule
start_condition-eq r c = ground arith

-- The engine starts the clients whose condition holds and stops all others, in their order.
pub split_clients-eq :
    (r : WasabiRun) (cs : List WasabiSchedule)
    → split_clients r cs ≡ (keep (start_condition r) cs, keep (λ c. not (start_condition r c)) cs)
unfolding split_clients
split_clients-eq r [] = refl
split_clients-eq r (c ∷ cs) = elim (Bool-cases (start_condition r c)) [
  | inl e ↦ rw e (ap (λ p. (c ∷ p.0, p.1)) (split_clients-eq r cs))
  | inr e ↦ rw e (ap (λ p. (p.0, c ∷ p.1)) (split_clients-eq r cs))
]

-- A JoinMarket client is not paused exactly when the block and the round are inside its schedule,
-- the pause after a timeout is over, and its limit of coinjoins, if it has one, is not reached.
pub is_paused_iff :
    (p : Pacing) (block round : ℕ)
    → (is_paused p block round ≡ false) ↔ (
        Inside p.schedule block round
        × (p.next_coinjoin_allowed ≤ block)
        × (0 < p.max_coinjoins → p.completed_coinjoins < p.max_coinjoins))
unfolding is_paused
is_paused_iff p block round =
    let within = outside_schedule_iff p.schedule block round in
    (
      λ h. (within.0 (ground arith), ground arith, λ q. ground arith),
      λ h. (let outside = within.1 h.0 in let (_, b, c) = h in ground arith),
    )
