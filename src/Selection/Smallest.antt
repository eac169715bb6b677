-- ===== src/Selection/Smallest.antt =====
-- Where one coin alone covers the value, the selection is a single coin: the smallest such.
use mathlib.Core.List.{Memᴰ}
use mathlib.Core.List.Memᴰ
use coinjoin_emulator.Base.{
  ℕ, zero, suc, ◌+◌, ◌-◌, ◌≤◌, ◌<◌, ◌≡◌, refl, ap, sym, subst, inl, inr, Bool, true, false, List,
  [], ◌∷◌, arith, ltb, leb, Bool-cases, keep, length, All, tests,
}
use coinjoin_emulator.Base.Sort.{sort_by, sort_by-mem, IsSorted, sort_by-IsSorted}
use coinjoin_emulator.Selection.{last, remove, first_or, pick, take_coins, select_by_amount}

module _ {A : Type 0} (amount : A → ℕ) (same : A → A → Bool) where
  abbrev by_amount : A → A → Bool
  by_amount a b = leb (amount a) (amount b)

  All-mem : (P : A → Type 0) (c : A) (xs : List A) → All P xs → Memᴰ c xs → P c
  All-mem P c [] h m = elim m [ ]
  All-mem P c (x ∷ xs) h (Memᴰ.head e) = subst P (sym e) h.0
  All-mem P c (x ∷ xs) h (Memᴰ.tail m) = All-mem P c xs h.1 m

  -- The first covering coin of a sorted list is the smallest that covers.
  first_or-least :
      (need : ℕ) (zs : List A) (d c : A)
      → IsSorted by_amount zs
      → Memᴰ c zs
      → need ≤ amount c
      → let m = first_or (keep (λ z. leb need (amount z)) zs) d in
        (need ≤ amount m) × (amount m ≤ amount c)
  unfolding first_or
  first_or-least need [] d c s m h = elim m [ ]
  first_or-least need (z ∷ zs) d c s m h = elim (Bool-cases (leb need (amount z))) [
    | inl e ↦ rw e (
      omega tests,
      elim (Memᴰ.cases_cons m) [
        | inl p ↦ rw p (omega arith)
        | inr o ↦ omega (tests, All-mem (λ y. by_amount z y ≡ true) c zs s.0 o)
      ],
    )
    | inr e ↦ rw e (
        first_or-least need zs d c s.1
          (elim (Memᴰ.cases_cons m) [ inl p ↦ absurd (ground (arith, p)) | inr o ↦ o ]) h)
  ]

  take_coins-stop :
      (fuel value : ℕ) (remaining selected : List A) (total : ℕ)
      → value ≤ total
      → take_coins amount same fuel value remaining selected total ≡ (selected, total)
  unfolding take_coins
  take_coins-stop zero value remaining selected total h = refl
  take_coins-stop (suc fuel) value [] selected total h = refl
  take_coins-stop (suc fuel) value (x ∷ xs) selected total h =
      let e : ltb total value ≡ false = ground (arith, h) in rw e

  -- One round of the loop, when the coin it picks covers the value.
  take_coins-one :
      (fuel value : ℕ) (x : A) (xs : List A)
      → 0 < value
      → value ≤ amount (pick amount same (value - 0) x xs)
      → let coin = pick amount same (value - 0) x xs in
        take_coins amount same (suc fuel) value (x ∷ xs) [] 0 ≡ (coin ∷ [], 0 + amount coin)
  unfolding take_coins
  take_coins-one fuel value x xs pos h =
      let coin = pick amount same (value - 0) x xs in
      let e : ltb 0 value ≡ true = ground (arith, pos) in
      rw e (
        take_coins-stop fuel value (remove same coin (x ∷ xs)) (coin ∷ []) (0 + amount coin)
          (omega (arith, h)))

  take_coins-smallest :
      (zs : List A) (value : ℕ) (c : A)
      → IsSorted by_amount zs
      → Memᴰ c zs
      → 0 < value
      → value ≤ amount c
      → let (taken, sats) = take_coins amount same (length zs) value zs [] 0 in
        (coin : A) × (taken ≡ coin ∷ []) × (value ≤ amount coin) × (amount coin ≤ amount c)
  take_coins-smallest [] value c s m pos h = absurd (Memᴰ.not-nil m)
  take_coins-smallest (x ∷ xs) value c s m pos h =
      let coin = pick amount same (value - 0) x xs in
      let least : (value - 0 ≤ amount coin) × (amount coin ≤ amount c) =
        unfold pick in first_or-least (value - 0) (x ∷ xs) (last x xs) c s m (omega arith) in
      let covers : value ≤ amount coin = omega (arith, least.0) in
      (coin, ap (λ r. r.0) (take_coins-one (length xs) value x xs pos covers), covers, least.1)

  -- If a candidate alone covers a positive value, the selection is one coin that covers it, and no
  -- candidate that covers it is smaller.
  pub select_by_amount-smallest :
      (candidates : List A) (value : ℕ) (c : A)
      → Memᴰ c candidates
      → 0 < value
      → value ≤ amount c
      → let (taken, _) = select_by_amount amount same candidates value in
        (coin : A) × (taken ≡ coin ∷ []) × (value ≤ amount coin) × (amount coin ≤ amount c)
  unfolding select_by_amount
  select_by_amount-smallest candidates value c m pos h =
      take_coins-smallest (sort_by by_amount candidates) value c
        (sort_by-IsSorted by_amount (λ x y e. ground arith) (λ x y z p q. ground arith) candidates)
        (sort_by-mem by_amount c candidates m) pos h
