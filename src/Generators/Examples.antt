-- ===== src/Generators/Examples.antt =====
-- Three coins of 1,000,000 satoshis, a partition by two cuts, and a locktime over the end of a year.
use mathlib.Core.List.Permᴰ
use coinjoin_emulator.Base.{ℕ, ◌≡◌, refl, none, some, List, [], ◌∷◌, arith}
use coinjoin_emulator.Generators.{Date, generate_utxos, parse_delays, locktime_after}
use coinjoin_emulator.Generators.Utxos.{IsFunded, generate_utxos-IsFunded}
use coinjoin_emulator.Generators.Months.{IsMonthsAfter, locktime_after-IsMonthsAfter}

-- The least that may be drawn.
abbrev draw : ℕ → ℕ → ℕ → ℕ
draw i lo hi = lo

abbrev as_they_are : List ℕ → List ℕ
as_they_are us = us

generate_utxos-IsFunded_example : IsFunded 100000 1000000 3 (100000 ∷ 100000 ∷ 800000 ∷ [])
unfolding generate_utxos
generate_utxos-IsFunded_example =
    generate_utxos-IsFunded draw (λ t. 300000) as_they_are 100000 1000000 2
      (100000 ∷ 100000 ∷ 800000 ∷ []) (λ i lo hi h. (omega arith, h)) (λ xs. ∣ Permᴰ.refl xs ∣₁)
      refl

-- A share below the least size leaves nothing to draw from.
too_small : generate_utxos draw (λ t. 96000) as_they_are 100000 320000 3 ≡ none
unfolding generate_utxos
too_small = refl

-- Cuts that are equal make an empty part.
abbrev equal_cuts : ℕ → List ℕ
equal_cuts n = 4 ∷ 4 ∷ []

abbrev uneven : List ℕ
uneven = 4 ∷ 0 ∷ 6 ∷ []

delays_run : parse_delays (some (5 ∷ 7 ∷ [])) 3 ≡ 5 ∷ 7 ∷ 0 ∷ []
unfolding parse_delays
delays_run = refl

abbrev november : Date
november = (2026, 11)

locktime_after-IsMonthsAfter_example :
    (d : Date) × (locktime_after 14 november ≡ some d) × IsMonthsAfter 14 november d
locktime_after-IsMonthsAfter_example = locktime_after-IsMonthsAfter 14 november (omega arith)
