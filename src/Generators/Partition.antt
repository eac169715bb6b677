-- ===== src/Generators/Partition.antt =====
-- The parts of a total.
use coinjoin_emulator.Base.{
  ℕ, suc, ◌+◌, ◌≤◌, ◌≡◌, refl, ◌∙◌, ap, subst, some, List, [], ◌∷◌, ◌==◌, length, arith, Bool-cases,
  inl, inr, some-inj,
}
use coinjoin_emulator.Base.Sums.{sum}
use coinjoin_emulator.Generators.{parts_from, random_partition}
use coinjoin_emulator.Generators.Utxos.{value}

-- Cuts in order, from a bound on, up to the total.
abbrev pub AreCuts : ℕ → ℕ → List ℕ → Type 0
AreCuts total low [] = low ≤ total
AreCuts total low (c ∷ cs) = (low ≤ c) × AreCuts total c cs

parts_from-sum :
    (total low : ℕ) (cs : List ℕ)
    → AreCuts total low cs
    → (low ≤ total) × (low + sum value (parts_from total low cs) ≡ total)
unfolding parts_from
parts_from-sum total low [] h = (h, omega (arith, h))
parts_from-sum total low (c ∷ cs) h =
    let (below, whole) = parts_from-sum total c cs h.1 in
    (omega (arith, h.0, below), omega (arith, h.0, whole))

parts_from-length :
    (total low : ℕ) (cs : List ℕ) → length (parts_from total low cs) ≡ suc (length cs)
unfolding parts_from
parts_from-length total low [] = refl
parts_from-length total low (c ∷ cs) = ap suc (parts_from-length total c cs)

-- With as many cuts as are asked for, in order and up to the total, a partition has as many parts as
-- are asked for, and they sum to the total.
pub random_partition-sum :
    (draw_sorted : ℕ → List ℕ) (total n : ℕ) (parts : List ℕ)
    → length (draw_sorted n) ≡ n
    → AreCuts total 0 (draw_sorted n)
    → random_partition draw_sorted total (suc n) ≡ some parts
    → (length parts ≡ suc n) × (sum value parts ≡ total)
unfolding random_partition
random_partition-sum draw_sorted total n parts many cuts h = elim (Bool-cases (n == 0)) [
  | inl one ↦
      let same : total ∷ [] ≡ parts = some-inj (rw one at h) in
      subst (λ ps. (length ps ≡ suc n) × (sum value ps ≡ total)) same
        (ground (arith, one), omega arith)
  | inr more ↦
      let same : parts_from total 0 (draw_sorted n) ≡ parts = some-inj (rw more at h) in
      let (low, whole) = parts_from-sum total 0 (draw_sorted n) cuts in
      subst (λ ps. (length ps ≡ suc n) × (sum value ps ≡ total)) same
        (parts_from-length total 0 (draw_sorted n) ∙ ap suc many, omega (arith, whole))
]
