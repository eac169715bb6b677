-- ===== src/Generators/Utxos.antt =====
-- The coins of a generated wallet.
use mathlib.Core.List.{Perm}
use coinjoin_emulator.Base.{
  ℕ, zero, suc, ◌+◌, ◌-◌, ◌*◌, ◌≤◌, ◌≡◌, refl, sym, ◌∙◌, ap, subst, true, Option, none, some, List,
  [], ◌∷◌, ◌++◌, ltb, leb, length, arith, All, All-append, append-nil, if◌then◌else◌, some-inj,
  le→leb, leb→le, Bool-cases, inl, inr, length-append,
}
use coinjoin_emulator.Base.Sums.{sum, sum-append, sum-perm, All-part}
use coinjoin_emulator.Generators.{
  shuffled, lesser, randint, add_utxo, then_utxo, draw_utxo, draw_utxos, finish_utxos,
  generate_utxos,
}

abbrev pub value : ℕ → ℕ
value u = u

-- Draws within their bounds.
abbrev pub IsDraw : (ℕ → ℕ → ℕ → ℕ) → Type 0
IsDraw draw = (i lo hi : ℕ) → lo ≤ hi → (lo ≤ draw i lo hi) × (draw i lo hi ≤ hi)

-- The coins drawn so far: their number, their least size, and their sum with what remains.
record Drawn (size total n left : ℕ) (r : List ℕ × ℕ) : Type 0 where
  count : length r.0 ≡ n
  all_large : All (λ u. leb size u ≡ true) r.0
  whole : sum value r.0 + r.1 ≡ total
  enough : left * size ≤ r.1

module _ (draw : ℕ → ℕ → ℕ → ℕ) (size share : ℕ) (in_range : IsDraw draw) where
  draw_utxo-within :
      (left remaining u : ℕ)
      → suc left * size ≤ remaining
      → draw_utxo draw size share left remaining ≡ some u
      → (size ≤ u) × (u + left * size ≤ remaining)
  unfolding draw_utxo randint
  draw_utxo-within left remaining u enough h =
      let most = remaining - left * size in
      let top = lesser most share in
      elim (Bool-cases (ltb size most)) [
        | inl room ↦ elim (Bool-cases (leb size top)) [
          | inl some_range ↦
              let drawn : draw left size top ≡ u = some-inj (rw (room, some_range) at h) in
              let within = in_range left size top (leb→le size top some_range) in
              let below : top ≤ most = ground arith in
              (omega (arith, drawn, within.0), omega (arith, drawn, within.1, below, enough))
          | inr no_range ↦ absurd (cc (rw (room, no_range) at h))
        ]
        | inr full ↦
            let least : size ≡ u = some-inj (rw full at h) in
            (omega (arith, least), omega (arith, least, enough))
      ]

  add_utxo-Drawn :
      (n u remaining : ℕ) (o : Option (List ℕ × ℕ)) (r : List ℕ × ℕ)
      → size ≤ u
      → u ≤ remaining
      → ((q : List ℕ × ℕ) → o ≡ some q → Drawn size (remaining - u) n 1 q)
      → add_utxo u o ≡ some r
      → Drawn size remaining (suc n) 1 r
  add_utxo-Drawn n u remaining none r large low rest h = absurd (cc h)
  add_utxo-Drawn n u remaining (some (us, left)) r large low rest h =
      let d = rest (us, left) refl in
      subst (Drawn size remaining (suc n) 1) (some-inj h) (record {
        count = ap suc d.count;
        all_large = (le→leb size u large, d.all_large);
        whole = omega (arith, d.whole, low);
        enough = d.enough;
      })

  then_utxo-Drawn :
      (n remaining : ℕ) (o : Option ℕ) (r : List ℕ × ℕ)
      → ((u : ℕ) → o ≡ some u → (size ≤ u) × (u + suc n * size ≤ remaining))
      → ((u : ℕ) (q : List ℕ × ℕ)
          → suc n * size ≤ remaining - u
          → draw_utxos draw size share n (remaining - u) ≡ some q
          → Drawn size (remaining - u) n 1 q)
      → then_utxo o remaining (draw_utxos draw size share n) ≡ some r
      → Drawn size remaining (suc n) 1 r
  unfolding then_utxo
  then_utxo-Drawn n remaining none r within rest h = absurd (cc h)
  then_utxo-Drawn n remaining (some u) r within rest h =
      let (large, room) = within u refl in
      add_utxo-Drawn n u remaining (draw_utxos draw size share n (remaining - u)) r large
        (omega (arith, room)) (λ q e. rest u q (omega (arith, room)) e) h

  draw_utxos-Drawn :
      (n remaining : ℕ) (r : List ℕ × ℕ)
      → suc n * size ≤ remaining
      → draw_utxos draw size share n remaining ≡ some r
      → Drawn size remaining n 1 r
  unfolding draw_utxos then_utxo
  draw_utxos-Drawn zero remaining r enough h =
      subst (Drawn size remaining 0 1) (some-inj h)
        (record { count = refl; all_large = tt; whole = omega arith; enough = enough })
  draw_utxos-Drawn (suc n) remaining r enough h =
      then_utxo-Drawn n remaining (draw_utxo draw size share (suc n) remaining) r
        (λ u q. draw_utxo-within (suc n) remaining u enough q)
        (λ u q b e. draw_utxos-Drawn n (remaining - u) q b e) h

-- What a generated wallet holds: its number of coins, none below the least size, and in all the total,
-- or the least that so many coins hold.
pub record IsFunded (size total n : ℕ) (us : List ℕ) : Type 0 where
  pub number : length us ≡ n
  pub all_large : All (λ u. leb size u ≡ true) us
  pub whole : sum value us ≡ (if ltb total (n * size) then n * size else total)

finish-IsFunded :
    (size total n : ℕ) (r : List ℕ × ℕ)
    → Drawn size total n 1 r
    → finish_utxos size (some r) ≡ some (r.0 ++ r.1 ∷ [])
unfolding finish_utxos
finish-IsFunded size total n (us, left) d =
    let enough = le→leb size left (omega (arith, d.enough)) in rw enough refl

sum-one : (us : List ℕ) → sum (λ _. 1) us ≡ length us
sum-one [] = refl
sum-one (u ∷ us) = omega (arith, sum-one us)

IsFunded-perm :
    (size total n : ℕ) (xs ys : List ℕ)
    → Perm xs ys
    → IsFunded size total n ys
    → IsFunded size total n xs
IsFunded-perm size total n xs ys p f = record {
  number = omega (arith, sum-one xs, sum-one ys, sum-perm (λ _. 1) p, f.number);
  all_large =
      All-part (λ u. leb size u) xs [] ys (subst (λ l. Perm l ys) (sym (append-nil xs)) p)
        f.all_large;
  whole = sum-perm value p ∙ f.whole;
}

finished-IsFunded :
    (size total n : ℕ) (r : List ℕ × ℕ)
    → Drawn size (if ltb total (suc n * size) then suc n * size else total) n 1 r
    → IsFunded size total (suc n) (r.0 ++ r.1 ∷ [])
finished-IsFunded size total n (us, left) d = record {
  number = omega (arith, length-append us (left ∷ []), d.count);
  all_large =
      All-append (λ u. leb size u ≡ true) us (left ∷ []) d.all_large
        (le→leb size left (omega (arith, d.enough)), tt);
  whole = sum-append value us (left ∷ []) ∙ (omega (arith, d.whole));
}

module _ (draw : ℕ → ℕ → ℕ → ℕ) (share : ℕ → ℕ) (shuffle : List ℕ → List ℕ) where
  shuffled-IsFunded :
      (size total n start : ℕ) (o : Option (List ℕ × ℕ)) (us : List ℕ)
      → start ≡ (if ltb total (suc n * size) then suc n * size else total)
      → ((xs : List ℕ) → Perm (shuffle xs) xs)
      → ((r : List ℕ × ℕ) → o ≡ some r → Drawn size start n 1 r)
      → shuffled shuffle (finish_utxos size o) ≡ some us
      → IsFunded size total (suc n) us
  unfolding finish_utxos
  shuffled-IsFunded size total n start none us e perm d h = absurd (cc h)
  shuffled-IsFunded size total n start (some r) us e perm d h =
      let drawn = subst (λ t. Drawn size t n 1 r) e (d r refl) in
      let plain = r.0 ++ r.1 ∷ [] in
      let same : shuffle plain ≡ us =
        some-inj (ap (shuffled shuffle) (sym (finish-IsFunded size _ n r drawn)) ∙ h) in
      subst (IsFunded size total (suc n)) same (
        IsFunded-perm size total (suc n) (shuffle plain) plain (perm plain)
          (finished-IsFunded size total n r drawn))

  -- With draws within their bounds and a shuffle that permutes, the coins that are generated, if they
  -- are, are as many as asked for, none is below the least size, and they hold the total, or the least
  -- that so many coins can hold.
  pub generate_utxos-IsFunded :
      (size total n : ℕ) (us : List ℕ)
      → IsDraw draw
      → ((xs : List ℕ) → Perm (shuffle xs) xs)
      → generate_utxos draw share shuffle size total (suc n) ≡ some us
      → IsFunded size total (suc n) us
  unfolding generate_utxos
  generate_utxos-IsFunded size total n us in_range perm h =
      let start = if ltb total (suc n * size) then suc n * size else total in
      shuffled-IsFunded size total n start (draw_utxos draw size (share start) n start) us refl perm
        (λ r q. draw_utxos-Drawn draw size (share start) in_range n start r (ground arith) q)
        (subst
          (λ m.
            shuffled shuffle (finish_utxos size (draw_utxos draw size (share start) m start))
            ≡ some us)
          (omega arith) h)
