-- ===== src/JoinMarket/Engine/Calmer.antt =====
-- Writes to round events, one for one: what scans and marks do to the live events of all clients,
-- they do to the events of each.
use mathlib.Core.List.{reverse, reverse-append, reverse-reverse}
use coinjoin_emulator.Base.{
  ℕ, ◌≤◌, ◌≡◌, refl, sym, ◌∙◌, subst, true, false, String, List, [], ◌∷◌, ◌++◌, map, take, drop,
  length, arith, count_if, Bool-cases, inl, inr,
}
use coinjoin_emulator.Rounds.{RoundEvent}
use coinjoin_emulator.Rounds.Confirm.{
  is_started, is_confirmed, mark_first, mark_failed, is_pending_of,
  mark_latest_started_round_failed,
}
use coinjoin_emulator.Rounds.Confirm.Counting.{on_started}

-- A relation between each event as written and the event before.
abbrev pub Pointwise :
    (RoundEvent → RoundEvent → Type 0) → List RoundEvent → List RoundEvent → Type 0
Pointwise R [] [] = Unit
Pointwise R (x ∷ xs) (e ∷ es) = R x e × Pointwise R xs es
Pointwise R _ _ = ⊥

-- No event is started that was not, or is confirmed otherwise than before.
abbrev pub Calmer : RoundEvent → RoundEvent → Type 0
Calmer x e = is_started x ≡ true → is_started e ≡ true

abbrev pub Same : RoundEvent → RoundEvent → Type 0
Same x e = is_confirmed x ≡ is_confirmed e

module _ (R : RoundEvent → RoundEvent → Type 0) where
  Pointwise-refl : ((e : RoundEvent) → R e e) → (es : List RoundEvent) → Pointwise R es es
  Pointwise-refl r [] = tt
  Pointwise-refl r (e ∷ es) = (r e, Pointwise-refl r es)

  Pointwise-append :
      (xs es ys fs : List RoundEvent)
      → Pointwise R xs es
      → Pointwise R ys fs
      → Pointwise R (xs ++ ys) (es ++ fs)
  Pointwise-append [] [] ys fs h k = k
  Pointwise-append [] (e ∷ es) ys fs h k = absurd h
  Pointwise-append (x ∷ xs) [] ys fs h k = absurd h
  Pointwise-append (x ∷ xs) (e ∷ es) ys fs h k = (h.0, Pointwise-append xs es ys fs h.1 k)

  Pointwise-reverse :
      (xs es : List RoundEvent) → Pointwise R xs es → Pointwise R (reverse xs) (reverse es)
  Pointwise-reverse [] [] h = tt
  Pointwise-reverse [] (e ∷ es) h = absurd h
  Pointwise-reverse (x ∷ xs) [] h = absurd h
  Pointwise-reverse (x ∷ xs) (e ∷ es) h =
      subst (λ l. Pointwise R l (reverse (e ∷ es))) (sym (reverse-append (x ∷ []) xs))
        (subst (λ l. Pointwise R (reverse xs ++ x ∷ []) l) (sym (reverse-append (e ∷ []) es))
          (Pointwise-append (reverse xs) (reverse es) (x ∷ []) (e ∷ [])
            (Pointwise-reverse xs es h.1) (h.0, tt)))

  -- The events of the first client, and those of the others.
  pub Pointwise-take :
      (xs es fs : List RoundEvent)
      → Pointwise R xs (es ++ fs)
      → Pointwise R (take (length es) xs) es
  Pointwise-take xs [] fs h = tt
  Pointwise-take [] (e ∷ es) fs h = absurd h
  Pointwise-take (x ∷ xs) (e ∷ es) fs h = (h.0, Pointwise-take xs es fs h.1)

  pub Pointwise-drop :
      (xs es fs : List RoundEvent)
      → Pointwise R xs (es ++ fs)
      → Pointwise R (drop (length es) xs) fs
  Pointwise-drop xs [] fs h = h
  Pointwise-drop [] (e ∷ es) fs h = absurd h
  Pointwise-drop (x ∷ xs) (e ∷ es) fs h = Pointwise-drop xs es fs h.1

  pub Pointwise-mark_first :
      (name reason : String) (n : ℕ)
      → ((e : RoundEvent) → R e e)
      → ((e : RoundEvent) → is_pending_of name e ≡ true → R (mark_failed reason n e) e)
      → (es : List RoundEvent) → Pointwise R (mark_first name reason n es) es
  unfolding mark_first
  Pointwise-mark_first name reason n r f [] = tt
  Pointwise-mark_first name reason n r f (e ∷ es) = elim (Bool-cases (is_pending_of name e)) [
    | inl p ↦ rw p (f e p, Pointwise-refl r es)
    | inr p ↦ rw p (r e, Pointwise-mark_first name reason n r f es)
  ]

module _ (R : RoundEvent → RoundEvent → Type 0) where
  reverse_twice :
      (xs es : List RoundEvent) → Pointwise R xs (reverse es) → Pointwise R (reverse xs) es
  reverse_twice xs es h =
      subst (Pointwise R (reverse xs)) (reverse-reverse es) (Pointwise-reverse R xs (reverse es) h)

  pub Pointwise-mark_latest :
      (name reason : String) (n : ℕ)
      → ((e : RoundEvent) → R e e)
      → ((e : RoundEvent) → is_pending_of name e ≡ true → R (mark_failed reason n e) e)
      → (es : List RoundEvent) → Pointwise R (mark_latest_started_round_failed es name reason n) es
  unfolding mark_latest_started_round_failed
  Pointwise-mark_latest name reason n r f es =
      reverse_twice (mark_first name reason n (reverse es)) es
        (Pointwise-mark_first R name reason n r f (reverse es))

pub count-Calmer :
    (xs es : List RoundEvent)
    → Pointwise Calmer xs es
    → count_if is_started xs ≤ count_if is_started es
count-Calmer [] [] h = omega arith
count-Calmer [] (e ∷ es) h = absurd h
count-Calmer (x ∷ xs) [] h = absurd h
count-Calmer (x ∷ xs) (e ∷ es) h = ground (arith, h.0, count-Calmer xs es h.1)

pub count-Same :
    (xs es : List RoundEvent)
    → Pointwise Same xs es
    → count_if is_confirmed xs ≡ count_if is_confirmed es
count-Same [] [] h = refl
count-Same [] (e ∷ es) h = absurd h
count-Same (x ∷ xs) [] h = absurd h
count-Same (x ∷ xs) (e ∷ es) h = ground (arith, h.0, count-Same xs es h.1)

pub Calmer-on_started :
    (f : RoundEvent → RoundEvent) (es : List RoundEvent)
    → Pointwise Calmer (map (on_started f) es) es
Calmer-on_started f [] = tt
Calmer-on_started f (e ∷ es) = (λ h. ground (arith, h), Calmer-on_started f es)

failed-not_started :
    (reason : String) (n : ℕ) (e : RoundEvent) → is_started (mark_failed reason n e) ≡ false
unfolding mark_failed is_started
failed-not_started reason n e = refl

pub Calmer-mark :
    (name reason : String) (n : ℕ) (e : RoundEvent)
    → is_pending_of name e ≡ true
    → Calmer (mark_failed reason n e) e
Calmer-mark name reason n e p h = absurd (cc (h, failed-not_started reason n e))

failed-not_confirmed :
    (reason : String) (n : ℕ) (e : RoundEvent) → is_confirmed (mark_failed reason n e) ≡ false
unfolding mark_failed is_confirmed
failed-not_confirmed reason n e = refl

pub Same-mark :
    (name reason : String) (n : ℕ) (e : RoundEvent)
    → is_pending_of name e ≡ true
    → Same (mark_failed reason n e) e
unfolding is_pending_of is_confirmed is_started
Same-mark name reason n e p = failed-not_confirmed reason n e ∙ (ground arith)
