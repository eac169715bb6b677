-- ===== src/Startup/Slots.antt =====
-- Each slot of the startup holds nothing, or a client that was started from the slot's wallet.
use coinjoin_emulator.Base.{
  ℕ, zero, suc, ◌+◌, ◌-◌, ◌≡◌, ◌≤◌, refl, ◌∙◌, ap, subst, Bool, Option, none, some, List, [], ◌∷◌,
  keep, take, drop, length, modify, get_elem?, not, All, All-append, All-imp, arith, Bool-cases,
  inl, inr,
}
use coinjoin_emulator.Startup.{
  StartupWallet, ClientPool, start_each, start_batches, fidelity_batch_size, stop_each,
  start_classified_wallets, put_clients, is_failed, failed_from, retry, unless_none, retry_loop,
  nothing_yet, number_wallets,
}

module _ {A : Type 0} (P : A → Type 0) where
  All-take : (n : ℕ) (xs : List A) → All P xs → All P (take n xs)
  All-take zero xs h = tt
  All-take (suc n) [] h = tt
  All-take (suc n) (x ∷ xs) h = (h.0, All-take n xs h.1)

  All-drop : (n : ℕ) (xs : List A) → All P xs → All P (drop n xs)
  All-drop zero xs h = h
  All-drop (suc n) [] h = tt
  All-drop (suc n) (x ∷ xs) h = All-drop n xs h.1

  All-keep : (p : A → Bool) (xs : List A) → All P xs → All P (keep p xs)
  All-keep p [] h = tt
  All-keep p (x ∷ xs) h = elim (Bool-cases (p x)) [
    | inl e ↦ rw e (h.0, All-keep p xs h.1)
    | inr e ↦ rw e (All-keep p xs h.1)
  ]

module _ {V C W : Type 0} (pool : ClientPool V C W) where
  -- A client that `start_client` returned for this index and wallet.
  abbrev pub IsStartOf : ℕ → StartupWallet V → C → Type 0
  IsStartOf i v c = (w : W) × ((pool.start_client i v w).0 ≡ some c)

  abbrev SlotOf : ℕ → StartupWallet V → Option C → Type 0
  SlotOf i v none = Unit
  SlotOf i v (some c) = IsStartOf i v c

  -- The slots from an index on, by the wallets.
  abbrev pub Slots : ℕ → List (StartupWallet V) → List (Option C) → Type 0
  Slots i [] [] = Unit
  Slots i (v ∷ vs) (o ∷ os) = SlotOf i v o × Slots (i + 1) vs os
  Slots i _ _ = ⊥

  -- A wallet under its index, and a result of such a wallet.
  abbrev IsHere : ℕ → List (StartupWallet V) → ℕ × StartupWallet V → Type 0
  IsHere base vs x = (base ≤ x.0) × (get_elem? vs (x.0 - base) ≡ some x.1)

  abbrev IsSound : ℕ → List (StartupWallet V) → ℕ × Option C → Type 0
  IsSound base vs r = (v : StartupWallet V) × IsHere base vs (r.0, v) × SlotOf r.0 v r.1

  SlotOf-started :
      (i : ℕ) (v : StartupWallet V) (w : W) (o : Option C)
      → (pool.start_client i v w).0 ≡ o
      → SlotOf i v o
  SlotOf-started i v w none h = tt
  SlotOf-started i v w (some c) h = (w, h)

  IsSound-start_each :
      (base : ℕ) (vs : List (StartupWallet V)) (xs : List (ℕ × StartupWallet V)) (w : W)
      → All (IsHere base vs) xs
      → All (IsSound base vs) (start_each pool xs w).0
  unfolding start_each
  IsSound-start_each base vs [] w h = tt
  IsSound-start_each base vs ((i, v) ∷ xs) w h = (
    (v, h.0, SlotOf-started i v w (pool.start_client i v w).0 refl),
    IsSound-start_each base vs xs (pool.start_client i v w).1 h.1,
  )

  IsSound-start_batches :
      (base : ℕ) (vs : List (StartupWallet V)) (fuel : ℕ) (xs : List (ℕ × StartupWallet V)) (w : W)
      → All (IsHere base vs) xs
      → All (IsSound base vs) (start_batches pool fuel xs w).0
  unfolding start_batches
  IsSound-start_batches base vs zero xs w h = tt
  IsSound-start_batches base vs (suc fuel) [] w h = tt
  IsSound-start_batches base vs (suc fuel) (x ∷ xs) w h =
      let first = start_each pool (take fidelity_batch_size (x ∷ xs)) w in
      All-append (IsSound base vs) first.0 _
        (IsSound-start_each base vs (take fidelity_batch_size (x ∷ xs)) w
          (All-take (IsHere base vs) fidelity_batch_size (x ∷ xs) h))
        (IsSound-start_batches base vs fuel (drop fidelity_batch_size (x ∷ xs)) first.1
          (All-drop (IsHere base vs) fidelity_batch_size (x ∷ xs) h))

  pub IsSound-start_classified_wallets :
      (base : ℕ) (vs : List (StartupWallet V)) (xs : List (ℕ × StartupWallet V)) (w : W)
      → All (IsHere base vs) xs
      → All (IsSound base vs) (start_classified_wallets pool xs w).0
  unfolding start_classified_wallets
  IsSound-start_classified_wallets base vs xs w h =
      let regular = keep (λ v. not v.1.has_fidelity_bond) xs in
      let bonded = keep (λ v. v.1.has_fidelity_bond) xs in
      let first = start_each pool regular w in
      All-append (IsSound base vs) first.0 _
        (IsSound-start_each base vs regular w
          (All-keep (IsHere base vs) (λ v. not v.1.has_fidelity_bond) xs h))
        (IsSound-start_batches base vs (length bonded) bonded first.1
          (All-keep (IsHere base vs) (λ v. v.1.has_fidelity_bond) xs h))

  -- With one more wallet in front, each stands one place later.
  IsHere-behind :
      (i : ℕ) (v : StartupWallet V) (vs : List (StartupWallet V)) (x : ℕ × StartupWallet V)
      → IsHere (i + 1) vs x
      → IsHere i (v ∷ vs) x
  IsHere-behind i v vs x (le, at) =
      let place : x.0 - i ≡ suc (x.0 - (i + 1)) = omega (arith, le) in
      (omega (arith, le), ap (get_elem? (v ∷ vs)) place ∙ at)

  IsHere-first :
      (i : ℕ) (v : StartupWallet V) (vs : List (StartupWallet V)) → IsHere i (v ∷ vs) (i, v)
  IsHere-first i v vs =
      let place : i - i ≡ 0 = omega arith in (omega arith, ap (get_elem? (v ∷ vs)) place)

  pub IsHere-number_wallets :
      (i : ℕ) (vs : List (StartupWallet V)) → All (IsHere i vs) (number_wallets pool i vs)
  IsHere-number_wallets i [] = tt
  IsHere-number_wallets i (v ∷ vs) = (
    IsHere-first i v vs,
    All-imp (IsHere (i + 1) vs) (IsHere i (v ∷ vs)) (number_wallets pool (i + 1) vs)
        (λ x h. IsHere-behind i v vs x h) (IsHere-number_wallets (i + 1) vs),
  )

  IsHere-failed_from :
      (i : ℕ) (cs : List (Option C)) (vs : List (StartupWallet V)) (w : W)
      → All (IsHere i vs) (failed_from pool i cs vs w)
  unfolding failed_from
  IsHere-failed_from i [] vs w = tt
  IsHere-failed_from i (c ∷ cs) [] w = tt
  IsHere-failed_from i (c ∷ cs) (v ∷ vs) w =
      let rest =
        All-imp (IsHere (i + 1) vs) (IsHere i (v ∷ vs)) (failed_from pool (i + 1) cs vs w)
          (λ x h. IsHere-behind i v vs x h) (IsHere-failed_from (i + 1) cs vs w) in
      elim (Bool-cases (is_failed pool c w)) [
        | inl e ↦ rw e (IsHere-first i v vs, rest)
        | inr e ↦ rw e rest
      ]

  Slots-modify :
      (base k : ℕ) (vs : List (StartupWallet V)) (cs : List (Option C)) (v : StartupWallet V)
      (o : Option C)
      → Slots base vs cs
      → get_elem? vs k ≡ some v
      → SlotOf (base + k) v o
      → Slots base vs (modify k (λ old. o) cs)
  Slots-modify base k [] [] v o h at new = h
  Slots-modify base k [] (c ∷ cs) v o h at new = absurd h
  Slots-modify base k (u ∷ vs) [] v o h at new = absurd h
  Slots-modify base zero (u ∷ vs) (c ∷ cs) v o h at new =
      let same : v ≡ u = cc at in
      let here : base + 0 ≡ base = omega arith in
      (subst (λ x. SlotOf base x o) same (subst (λ i. SlotOf i v o) here new), h.1)
  Slots-modify base (suc k) (u ∷ vs) (c ∷ cs) v o h at new =
      let here : base + suc k ≡ base + 1 + k = omega arith in
      (h.0, Slots-modify (base + 1) k vs cs v o h.1 at (subst (λ i. SlotOf i v o) here new))

  pub Slots-put_clients :
      (base : ℕ) (vs : List (StartupWallet V)) (rs : List (ℕ × Option C)) (cs : List (Option C))
      → All (IsSound base vs) rs
      → Slots base vs cs
      → Slots base vs (put_clients pool base rs cs)
  unfolding put_clients
  Slots-put_clients base vs [] cs sound h = h
  Slots-put_clients base vs ((i, o) ∷ rs) cs ((v, (le, at), new), sound) h =
      let place : i ≡ base + (i - base) = omega (arith, le) in
      Slots-put_clients base vs rs (modify (i - base) (λ old. o) cs) sound
        (Slots-modify base (i - base) vs cs v o h at (subst (λ n. SlotOf n v o) place new))

  pub Slots-nothing_yet : (i : ℕ) (vs : List (StartupWallet V)) → Slots i vs (nothing_yet pool vs)
  Slots-nothing_yet i [] = tt
  Slots-nothing_yet i (v ∷ vs) = (tt, Slots-nothing_yet (i + 1) vs)

  Slots-unless_none :
      (base : ℕ) (vs : List (StartupWallet V)) (failed : List (ℕ × StartupWallet V))
      (stay next : List (Option C) × W)
      → Slots base vs stay.0
      → Slots base vs next.0
      → Slots base vs (unless_none pool failed stay next).0
  unfolding unless_none
  Slots-unless_none base vs [] stay next a b = a
  Slots-unless_none base vs (_ ∷ _) stay next a b = b

  pub Slots-retry_loop :
      (n base : ℕ) (vs : List (StartupWallet V)) (cs : List (Option C)) (w : W)
      → Slots base vs cs
      → Slots base vs (retry_loop pool n base vs cs w).0
  unfolding retry_loop retry
  Slots-retry_loop zero base vs cs w h = h
  Slots-retry_loop (suc n) base vs cs w h =
      let failed = failed_from pool base cs vs w in
      let tried = retry pool base failed cs w in
      let again = start_classified_wallets pool failed (stop_each pool failed w) in
      Slots-unless_none base vs failed (cs, w) (retry_loop pool n base vs tried.0 tried.1) h
        (Slots-retry_loop n base vs tried.0 tried.1 (
          Slots-put_clients base vs again.0 cs
            (IsSound-start_classified_wallets base vs failed (stop_each pool failed w)
              (IsHere-failed_from base cs vs w))
            h))
