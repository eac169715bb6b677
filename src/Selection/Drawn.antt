-- ===== src/Selection/Drawn.antt =====
-- What a selection by amount takes from its candidates: coins of theirs, once each, and enough of
-- them whenever all together are enough.
use mathlib.Core.List.{Perm, Memᴰ}
use mathlib.Core.List.Perm
use mathlib.Core.List.Memᴰ
use coinjoin_emulator.Base.{
  ℕ, zero, suc, ◌+◌, ◌-◌, ◌≤◌, ◌<◌, ◌≡◌, refl, ap, sym, subst, ◌∙◌, ◌⊎◌, inl, inr, ◌↔◌, Bool, true,
  false, List, [], ◌∷◌, ◌++◌, append_assoc, arith, ltb, leb, Bool-cases, keep, length, tests,
}
use coinjoin_emulator.Base.Sums.{sum, sum-append, sum-perm}
use coinjoin_emulator.Base.Sort.{sort_by, sort_by-perm}
use coinjoin_emulator.Selection.{last, remove, first_or, pick, take_coins, select_by_amount}

module _ {A : Type 0} where
  last-mem : (x : A) (xs : List A) → Memᴰ (last x xs) (x ∷ xs)
  unfolding last
  last-mem x [] = Memᴰ.head refl
  last-mem x (y ∷ ys) = Memᴰ.tail (last-mem y ys)

  -- The first of a filtered list is one of the list, or the default.
  first_or-mem :
      (p : A → Bool) (zs : List A) (d : A)
      → Memᴰ (first_or (keep p zs) d) zs ⊎ (first_or (keep p zs) d ≡ d)
  unfolding first_or
  first_or-mem p [] d = inr refl
  first_or-mem p (z ∷ zs) d = elim (Bool-cases (p z)) [
    | inl e ↦ rw e (inl (Memᴰ.head refl))
    | inr e ↦ rw e (elim (first_or-mem p zs d) [ inl o ↦ inl (Memᴰ.tail o) | inr q ↦ inr q ])
  ]

  pub pick-mem :
      (amount : A → ℕ) (same : A → A → Bool) (need : ℕ) (x : A) (xs : List A)
      → Memᴰ (pick amount same need x xs) (x ∷ xs)
  unfolding pick
  pick-mem amount same need x xs =
      elim (first_or-mem (λ c. leb need (amount c)) (x ∷ xs) (last x xs)) [
        | inl m ↦ m
        | inr e ↦ Memᴰ.cast e (last-mem x xs)
      ]

module _ {A : Type 0} (same : A → A → Bool)
    (same_iff : (a b : A) → (same a b ≡ true) ↔ (a ≡ b)) where
  mem-tail : (c x : A) (xs : List A) → same x c ≡ false → Memᴰ c (x ∷ xs) → Memᴰ c xs
  mem-tail c x xs e m = elim (Memᴰ.cases_cons m) [
    | inl p ↦ absurd (cc ((same_iff x c).1 (sym p)))
    | inr o ↦ o
  ]

  remove-perm : (c : A) (xs : List A) → Memᴰ c xs → Perm (c ∷ remove same c xs) xs
  unfolding remove
  remove-perm c [] h = absurd (Memᴰ.not-nil h)
  remove-perm c (x ∷ xs) h = elim (Bool-cases (same x c)) [
    | inl e ↦
        rw e (subst (λ z. Perm (c ∷ xs) (z ∷ xs)) (sym ((same_iff x c).0 e)) (Perm.refl (c ∷ xs)))
    | inr e ↦ rw e (
        Perm.trans (Perm.swap x c (remove same c xs))
          (Perm.cons x (remove-perm c xs (mem-tail c x xs e h))))
  ]

  length-remove : (c : A) (xs : List A) → Memᴰ c xs → suc (length (remove same c xs)) ≡ length xs
  unfolding remove
  length-remove c [] h = absurd (Memᴰ.not-nil h)
  length-remove c (x ∷ xs) h = elim (Bool-cases (same x c)) [
    | inl e ↦ rw e
    | inr e ↦ rw e (ap suc (length-remove c xs (mem-tail c x xs e h)))
  ]

taken-perm :
    {A : Type 0} (selected : List A) (coin : A) (left ys : List A)
    → Perm (coin ∷ left) ys
    → Perm ((selected ++ coin ∷ []) ++ left) (selected ++ ys)
taken-perm selected coin left ys p =
    subst (λ l. Perm l (selected ++ ys)) (sym (append_assoc selected (coin ∷ []) left))
      (Perm.append_left selected p)

module _ {A : Type 0} (amount : A → ℕ) (same : A → A → Bool)
    (same_iff : (a b : A) → (same a b ≡ true) ↔ (a ≡ b)) where
  chosen-perm :
      (need : ℕ) (x : A) (xs : List A)
      → let coin = pick amount same need x xs in Perm (coin ∷ remove same coin (x ∷ xs)) (x ∷ xs)
  chosen-perm need x xs =
      remove-perm same same_iff (pick amount same need x xs) (x ∷ xs)
        (pick-mem amount same need x xs)

  -- What the loop has taken, with what it has left, is what it began with.
  take_coins-perm :
      (fuel value : ℕ) (remaining selected : List A) (total : ℕ)
      → (left : List A) × Perm
          ((take_coins amount same fuel value remaining selected total).0 ++ left)
          (selected ++ remaining)
  unfolding take_coins
  take_coins-perm zero value remaining selected total =
      (remaining, Perm.refl (selected ++ remaining))
  take_coins-perm (suc fuel) value [] selected total = ([], Perm.refl (selected ++ []))
  take_coins-perm (suc fuel) value (x ∷ xs) selected total =
      let coin = pick amount same (value - total) x xs in
      elim (Bool-cases (ltb total value)) [
        | inl e ↦ rw e (
            let (left, p) =
              take_coins-perm fuel value (remove same coin (x ∷ xs)) (selected ++ coin ∷ [])
                (total + amount coin) in
            (left, Perm.trans p (taken-perm selected coin _ _ (chosen-perm (value - total) x xs))))
        | inr e ↦ rw e (x ∷ xs, Perm.refl (selected ++ x ∷ xs))
      ]

  take_coins-total :
      (fuel value : ℕ) (remaining selected : List A) (total : ℕ)
      → total ≡ sum amount selected
      → let (taken, sats) = take_coins amount same fuel value remaining selected total in
        sats ≡ sum amount taken
  unfolding take_coins
  take_coins-total zero value remaining selected total h = h
  take_coins-total (suc fuel) value [] selected total h = h
  take_coins-total (suc fuel) value (x ∷ xs) selected total h =
      let coin = pick amount same (value - total) x xs in
      elim (Bool-cases (ltb total value)) [
        | inl e ↦ rw e (
            take_coins-total fuel value (remove same coin (x ∷ xs)) (selected ++ coin ∷ [])
              (total + amount coin) (omega (arith, sum-append amount selected (coin ∷ []))))
        | inr e ↦ rw e h
      ]

  -- With fuel for each coin the loop ends by covering the value, or with every coin taken.
  take_coins-covers :
      (fuel value : ℕ) (remaining selected : List A) (total : ℕ)
      → length remaining ≤ fuel
      → let (_, sats) = take_coins amount same fuel value remaining selected total in
        (value ≤ sats) ⊎ (sats ≡ total + sum amount remaining)
  unfolding take_coins
  take_coins-covers zero value [] selected total h = inr (omega arith)
  take_coins-covers zero value (x ∷ xs) selected total h = absurd (omega arith)
  take_coins-covers (suc fuel) value [] selected total h = inr (omega arith)
  take_coins-covers (suc fuel) value (x ∷ xs) selected total h =
      let coin = pick amount same (value - total) x xs in
      elim (Bool-cases (ltb total value)) [
        | inl e ↦
            rw e
              (elim (take_coins-covers fuel value (remove same coin (x ∷ xs))
                (selected ++ coin ∷ []) (total + amount coin)
                (omega (
                  arith,
                  length-remove same same_iff coin (x ∷ xs)
                      (pick-mem amount same (value - total) x xs),
                ))) [
                  | inl c ↦ inl c
                  | inr q ↦
                      inr (q ∙ (omega (arith, sum-perm amount (chosen-perm (value - total) x xs))))
                ])
        | inr e ↦ rw e (inl (omega tests))
      ]

  -- The loop takes no coin more than it needs: before its last coin it had not covered the value.
  take_coins-needed :
      (fuel value : ℕ) (remaining selected : List A) (total : ℕ)
      → total ≡ sum amount selected
      → let (taken, sats) = take_coins amount same fuel value remaining selected total in
        (taken ≡ selected)
        ⊎ ((first : List A) × (coin : A) × (taken ≡ first ++ coin ∷ [])
            × (sum amount first < value))
  unfolding take_coins
  take_coins-needed zero value remaining selected total h = inl refl
  take_coins-needed (suc fuel) value [] selected total h = inl refl
  take_coins-needed (suc fuel) value (x ∷ xs) selected total h =
      let coin = pick amount same (value - total) x xs in
      elim (Bool-cases (ltb total value)) [
        | inl e ↦
            rw e
              (elim (take_coins-needed fuel value (remove same coin (x ∷ xs))
                (selected ++ coin ∷ []) (total + amount coin)
                (omega (arith, sum-append amount selected (coin ∷ [])))) [
                  | inl c ↦ inr (selected, coin, c, omega tests)
                  | inr q ↦ inr q
                ])
        | inr e ↦ rw e (inl refl)
      ]

  abbrev by_amount : A → A → Bool
  by_amount a b = leb (amount a) (amount b)

  -- The selected coins, with those left over, are the candidates, and the total is their sum.
  pub select_by_amount-perm :
      (candidates : List A) (value : ℕ)
      → let (taken, sats) = select_by_amount amount same candidates value in
        ((left : List A) × Perm (taken ++ left) candidates) × (sats ≡ sum amount taken)
  unfolding select_by_amount
  select_by_amount-perm candidates value =
      let remaining = sort_by by_amount candidates in
      let (left, p) = take_coins-perm (length remaining) value remaining [] 0 in
      (
        (left, Perm.trans p (sort_by-perm by_amount candidates)),
        take_coins-total (length remaining) value remaining [] 0 refl,
      )

  sum-taken-le :
      (candidates : List A) (value : ℕ)
      → (select_by_amount amount same candidates value).1 ≤ sum amount candidates
  sum-taken-le candidates value =
      let (taken, sats) = select_by_amount amount same candidates value in
      let ((left, p), e) = select_by_amount-perm candidates value in
      omega (arith, sum-perm amount p, sum-append amount taken left, e)

  covers_or_all :
      (candidates : List A) (value : ℕ)
      → let (_, sats) = select_by_amount amount same candidates value in
        (value ≤ sats) ⊎ (sats ≡ sum amount (sort_by by_amount candidates))
  unfolding select_by_amount
  covers_or_all candidates value =
      let remaining = sort_by by_amount candidates in
      elim (take_coins-covers (length remaining) value remaining [] 0 (omega arith)) [
        | inl c ↦ inl c
        | inr q ↦ inr (omega (arith, q))
      ]

  -- The selection covers the value exactly when all candidates together do.
  pub select_by_amount-covers :
      (candidates : List A) (value : ℕ)
      → (value ≤ (select_by_amount amount same candidates value).1)
        ↔ (value ≤ sum amount candidates)
  select_by_amount-covers candidates value =
      let all = sum-perm amount (sort_by-perm by_amount candidates) in
      (
        λ h. omega (arith, sum-taken-le candidates value),
        λ h. elim (covers_or_all candidates value) [ inl c ↦ c | inr q ↦ omega (arith, q, all) ],
      )

  -- Without its last coin a selection does not cover the value.
  pub select_by_amount-needed :
      (candidates : List A) (value : ℕ)
      → let (taken, _) = select_by_amount amount same candidates value in
        (taken ≡ [])
        ⊎ ((first : List A) × (coin : A) × (taken ≡ first ++ coin ∷ [])
            × (sum amount first < value))
  unfolding select_by_amount
  select_by_amount-needed candidates value =
      let remaining = sort_by by_amount candidates in
      take_coins-needed (length remaining) value remaining [] 0 refl
