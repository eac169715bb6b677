-- ===== src/Base/Sums.antt =====
-- Sums of a measure over a list, and what a permutation leaves unchanged.
use mathlib.Core.List.{Perm, Permᴰ}
use mathlib.Core.Logic.{∥∥₁_elim}
use native.Mathlib.Nat.{ℕ_set}
use coinjoin_emulator.Base.{
  ℕ, ◌+◌, ◌≤◌, ◌≡◌, refl, ◌∙◌, Bool, true, List, [], ◌∷◌, ◌++◌, arith, All, keep, if◌then◌else◌,
}

module _ {ℓ} {A : Type ℓ} where
  -- `sum(f(x) for x in xs)`
  abbrev pub sum : (A → ℕ) → List A → ℕ
  sum f [] = 0
  sum f (x ∷ xs) = f x + sum f xs

  pub sum-append : (f : A → ℕ) (xs ys : List A) → sum f (xs ++ ys) ≡ sum f xs + sum f ys
  sum-append f [] ys = omega arith
  sum-append f (x ∷ xs) ys = omega (arith, sum-append f xs ys)

  sum-permᴰ : (f : A → ℕ) {xs ys : List A} → Permᴰ xs ys → sum f xs ≡ sum f ys
  sum-permᴰ f Permᴰ.nil = refl
  sum-permᴰ f (Permᴰ.cons e p) = ground (arith, sum-permᴰ f p)
  sum-permᴰ f (Permᴰ.swap e d) = ground arith
  sum-permᴰ f (Permᴰ.trans p q) = sum-permᴰ f p ∙ sum-permᴰ f q

  pub sum-perm : (f : A → ℕ) {xs ys : List A} → Perm xs ys → sum f xs ≡ sum f ys
  sum-perm f p = ∥∥₁_elim p (ℕ_set _ _) (sum-permᴰ f)

  pub sum-le-sum_of_keep : (f : A → ℕ) (p : A → Bool) (xs : List A) → sum f (keep p xs) ≤ sum f xs
  sum-le-sum_of_keep f p [] = omega arith
  sum-le-sum_of_keep f p (x ∷ xs) = ground (arith, sum-le-sum_of_keep f p xs)

  pub keep-All : (p : A → Bool) (xs : List A) → All (λ x. p x ≡ true) (keep p xs)
  keep-All p [] = tt
  keep-All p (x ∷ xs) = ground (arith, keep-All p xs)

  abbrev failing : (A → Bool) → A → ℕ
  failing q x = if q x then 0 else 1

  failing-All : (q : A → Bool) (xs : List A) → All (λ x. q x ≡ true) xs → sum (failing q) xs ≡ 0
  failing-All q [] h = refl
  failing-All q (x ∷ xs) h = ground (arith, h.0, failing-All q xs h.1)

  All-failing : (q : A → Bool) (xs : List A) → sum (failing q) xs ≡ 0 → All (λ x. q x ≡ true) xs
  All-failing q [] h = tt
  All-failing q (x ∷ xs) h = (ground arith, All-failing q xs (ground arith))

  -- What all elements pass, the elements of a part of them in any order pass.
  pub All-part :
      (q : A → Bool) (xs left ys : List A)
      → Perm (xs ++ left) ys
      → All (λ x. q x ≡ true) ys
      → All (λ x. q x ≡ true) xs
  All-part q xs left ys p h =
      All-failing q xs
        (omega (arith, sum-append (failing q) xs left, sum-perm (failing q) p, failing-All q ys h))
