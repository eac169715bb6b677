-- ===== src/Rounds/Refs.antt =====
-- References into the store of events: updating the places of a destination is updating the events
-- that have it.
use coinjoin_emulator.Base.{
  ℕ, suc, ◌+◌, ◌≡◌, refl, ◌∙◌, ap, Bool, false, String, Option, none, some, List, [], ◌∷◌, ◌++◌,
  map, str_eq, if◌then◌else◌, modify, Bool-cases, inl, inr, length, arith,
}
use coinjoin_emulator.Rounds.{RoundEvent, destination_address}
use coinjoin_emulator.Rounds.Reconcile.{modify_all}

-- Whether an optional destination is the given address.
abbrev pub is_at : String → Option String → Bool
is_at a none = false
is_at a (some k) = str_eq k a

-- The places, from `i` on, that hold the address.
abbrev pub places : String → ℕ → List (Option String) → List ℕ
places a i [] = []
places a i (d ∷ ds) = if is_at a d then i ∷ places a (suc i) ds else places a (suc i) ds

abbrev pub destinations : List RoundEvent → List (Option String)
destinations es = map destination_address es

-- The events of an address, updated.
abbrev pub at_address : String → (RoundEvent → RoundEvent) → RoundEvent → RoundEvent
at_address a f e = if is_at a (destination_address e) then f e else e

places-suc :
    (a : String) (i : ℕ) (ds : List (Option String)) → places a (suc i) ds ≡ map suc (places a i ds)
places-suc a i [] = refl
places-suc a i (d ∷ ds) = elim (Bool-cases (is_at a d)) [
  | inl e ↦ rw e (ap (λ l. suc i ∷ l) (places-suc a (suc i) ds))
  | inr e ↦ rw e (places-suc a (suc i) ds)
]

modify_all-suc :
    (is : List ℕ) (f : RoundEvent → RoundEvent) (x : RoundEvent) (xs : List RoundEvent)
    → modify_all (map suc is) f (x ∷ xs) ≡ x ∷ modify_all is f xs
unfolding modify_all
modify_all-suc [] f x xs = refl
modify_all-suc (i ∷ is) f x xs = modify_all-suc is f x (modify i f xs)

pub modify_all-places :
    (a : String) (f : RoundEvent → RoundEvent) (es : List RoundEvent)
    → modify_all (places a 0 (destinations es)) f es ≡ map (at_address a f) es
unfolding modify_all
modify_all-places a f [] = refl
modify_all-places a f (x ∷ xs) =
    let shifted : (y : RoundEvent)
        → modify_all (places a 1 (destinations xs)) f (y ∷ xs) ≡ y ∷ map (at_address a f) xs =
      λ y.
        ap (λ is. modify_all is f (y ∷ xs)) (places-suc a 0 (destinations xs))
        ∙ modify_all-suc (places a 0 (destinations xs)) f y xs
        ∙ ap (λ l. y ∷ l) (modify_all-places a f xs) in
    elim (Bool-cases (is_at a (destination_address x))) [
      | inl e ↦ rw e (shifted (f x))
      | inr e ↦ rw e (shifted x)
    ]

suc-add : (i n : ℕ) → suc i + n ≡ i + suc n
suc-add i n = omega arith

pub places-append :
    (a : String) (i : ℕ) (ds : List (Option String)) (d : Option String)
    → places a i (ds ++ d ∷ []) ≡ places a i ds ++ (if is_at a d then (i + length ds) ∷ [] else [])
places-append a i [] d =
    (let e : i ≡ i + 0 = omega arith in ap (λ k. if is_at a d then k ∷ [] else []) e)
places-append a i (c ∷ ds) d = elim (Bool-cases (is_at a c)) [
  | inl e ↦ rw e (
      ap (λ l. i ∷ l)
        (places-append a (suc i) ds d
          ∙ ap (λ k. places a (suc i) ds ++ (if is_at a d then k ∷ [] else []))
              (suc-add i (length ds))))
  | inr e ↦ rw e (
      places-append a (suc i) ds d
      ∙ ap (λ k. places a (suc i) ds ++ (if is_at a d then k ∷ [] else [])) (suc-add i (length ds)))
]
