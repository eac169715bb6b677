-- ===== src/Readiness/Quiet.antt =====
-- What the wait for a quiet tip has seen when it returns.
use coinjoin_emulator.Base.{ℕ, ◌≡◌, some, List, ◌++◌, length, All, ◌≤◌}
use coinjoin_emulator.Readiness.{Sample, ChainInfo, TipState, quiet_sample_count, tip}

-- Samples in a row that are synchronized at one height, as many as are asked for, up to the rest.
pub record QuietRun (samples rest : List (Sample ChainInfo)) : Type 0 where
  pub earlier : List (Sample ChainInfo)
  pub row : List (Sample ChainInfo)
  pub height : ℕ
  pub parts : samples ≡ earlier ++ row ++ rest
  pub enough : quiet_sample_count ≤ length row
  pub same_tip : All (λ s. tip s ≡ some height) row

-- The samples of the current streak.
record Streak (s : TipState) (row : List (Sample ChainInfo)) : Type 0 where
  counted : s.streak ≡ length row
  at_height : All (λ x. tip x ≡ s.quiet_height) row

-- What is known of the samples seen so far, after one more.
record Seen (pre : List (Sample ChainInfo)) (s : TipState) : Type 0 where
  earlier : List (Sample ChainInfo)
  row : List (Sample ChainInfo)
  parts : pre ≡ earlier ++ row
  now : Streak s row
