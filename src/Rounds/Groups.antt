-- ===== src/Rounds/Groups.antt =====
-- The index by destination: each address is listed once, with the places of its events.
use coinjoin_emulator.Base.{
  ℕ, ◌+◌, ◌≡◌, refl, ◌∙◌, ap, sym, subst, Bool, true, false, ◌||◌, String, Option, none, some, List,
  [], ◌∷◌, ◌++◌, str_eq, eq_iff, if◌then◌else◌, Bool-cases, inl, inr, length, length-append, arith,
  append_assoc, append-nil,
}
use coinjoin_emulator.Rounds.{RoundEvent, destination_address}
use coinjoin_emulator.Rounds.Reconcile.{Groups, push, members, index_one, group_from}
use coinjoin_emulator.Rounds.Refs.{places, destinations, places-append}

-- Whether an address has an entry.
abbrev pub has_key : String → Groups → Bool
has_key k [] = false
has_key k ((j, is) ∷ g) = str_eq j k || has_key k g

-- Each entry holds the places of its address, and no address has two entries.
abbrev pub IsIndex : List (Option String) → Groups → Type 0
IsIndex ds [] = Unit
IsIndex ds ((j, is) ∷ g) = (is ≡ places j 0 ds) × (has_key j g ≡ false) × IsIndex ds g

members-push :
    (a k : String) (i : ℕ) (g : Groups)
    → members a (push k i g) ≡ (if str_eq k a then members a g ++ i ∷ [] else members a g)
unfolding members push
members-push a k i [] = ground (arith, eq_iff k a)
members-push a k i ((j, is) ∷ g) =
    ground (arith, eq_iff k a, eq_iff j k, eq_iff j a, members-push a k i g)

has_key-push :
    (a k : String) (i : ℕ) (g : Groups) → has_key a (push k i g) ≡ (str_eq k a || has_key a g)
unfolding push
has_key-push a k i [] = refl
has_key-push a k i ((j, is) ∷ g) =
    ground (arith, eq_iff k a, eq_iff j k, eq_iff j a, has_key-push a k i g)

pub members-no_key : (a : String) (g : Groups) → has_key a g ≡ false → members a g ≡ []
unfolding members
members-no_key a [] h = refl
members-no_key a ((j, is) ∷ g) h = ground (arith, members-no_key a g)

places-added_self :
    (ds : List (Option String)) (k : String) (i : ℕ) (j : String)
    → str_eq k j ≡ true
    → places j i (ds ++ some k ∷ []) ≡ places j i ds ++ (i + length ds) ∷ []
places-added_self ds k i j e = places-append j i ds (some k) ∙ rw e

places-added_ne :
    (ds : List (Option String)) (k : String) (i : ℕ) (j : String)
    → str_eq k j ≡ false
    → places j i (ds ++ some k ∷ []) ≡ places j i ds
places-added_ne ds k i j e = places-append j i ds (some k) ∙ rw e (append-nil (places j i ds))

-- Adding another destination leaves the entries of other addresses as they are.
IsIndex-other :
    (ds : List (Option String)) (k : String) (g : Groups)
    → has_key k g ≡ false
    → IsIndex ds g
    → IsIndex (ds ++ some k ∷ []) g
IsIndex-other ds k [] fresh h = tt
IsIndex-other ds k ((j, is) ∷ g) fresh h = (
  h.0 ∙ sym (places-added_ne ds k 0 j (ground (arith, eq_iff k j, eq_iff j k))),
  h.1,
  IsIndex-other ds k g (ground arith) h.2,
)

IsIndex-push :
    (ds : List (Option String)) (k : String) (g : Groups)
    → (has_key k g ≡ false → places k 0 ds ≡ [])
    → IsIndex ds g
    → IsIndex (ds ++ some k ∷ []) (push k (0 + length ds) g)
unfolding push
IsIndex-push ds k [] none_yet h = (
  sym (
      places-added_self ds k 0 k ((eq_iff k k).1 refl)
      ∙ ap (λ l. l ++ (0 + length ds) ∷ []) (none_yet refl)),
  refl,
  tt,
)
IsIndex-push ds k ((j, is) ∷ g) none_yet h = elim (Bool-cases (str_eq j k)) [
  | inl e ↦ rw e (
    ap (λ l. l ++ (0 + length ds) ∷ []) h.0
        ∙ sym (places-added_self ds k 0 j (ground (arith, eq_iff k j, eq_iff j k))),
    h.1,
    IsIndex-other ds k g (ground (arith, eq_iff j k)) h.2,
  )
  | inr e ↦ rw e (
    h.0 ∙ sym (places-added_ne ds k 0 j (ground (arith, eq_iff k j, eq_iff j k))),
    has_key-push j k (0 + length ds) g ∙ ground (arith, eq_iff k j, eq_iff j k),
    IsIndex-push ds k g (λ p. none_yet (ground arith)) h.2,
  )
]

places-no_destination :
    (a : String) (i : ℕ) (ds : List (Option String)) → places a i (ds ++ none ∷ []) ≡ places a i ds
places-no_destination a i ds = places-append a i ds none ∙ append-nil (places a i ds)

IsIndex-none : (ds : List (Option String)) (g : Groups) → IsIndex ds g → IsIndex (ds ++ none ∷ []) g
IsIndex-none ds [] h = tt
IsIndex-none ds ((j, is) ∷ g) h =
    (h.0 ∙ sym (places-no_destination j 0 ds), h.1, IsIndex-none ds g h.2)

-- What the index says of the events before place `i`.
pub record Indexes (ds : List (Option String)) (g : Groups) : Type 0 where
  pub entries : IsIndex ds g
  pub complete : (a : String) → members a g ≡ places a 0 ds

index_one-Indexes :
    (d : Option String) (ds : List (Option String)) (g : Groups)
    → Indexes ds g
    → Indexes (ds ++ d ∷ []) (index_one d (0 + length ds) g)
unfolding index_one
index_one-Indexes none ds g x = record {
  entries = IsIndex-none ds g x.entries;
  complete = λ a. x.complete a ∙ sym (places-no_destination a 0 ds);
}
index_one-Indexes (some k) ds g x = record {
  entries = IsIndex-push ds k g (λ p. sym (x.complete k) ∙ members-no_key k g p) x.entries;
  complete = λ a. members-push a k (0 + length ds) g ∙ elim (Bool-cases (str_eq k a)) [
    | inl e ↦
        rw e
          (ap (λ l. l ++ (0 + length ds) ∷ []) (x.complete a) ∙ sym (places-added_self ds k 0 a e))
    | inr e ↦ rw e (x.complete a ∙ sym (places-added_ne ds k 0 a e))
  ];
}

group_from-Indexes :
    (es : List RoundEvent) (ds : List (Option String)) (g : Groups) (i : ℕ)
    → i ≡ 0 + length ds
    → Indexes ds g
    → Indexes (ds ++ destinations es) (group_from i es g)
unfolding group_from
group_from-Indexes [] ds g i e x = subst (λ l. Indexes l g) (sym (append-nil ds)) x
group_from-Indexes (v ∷ vs) ds g i e x =
    let d = destination_address v in
    let here =
      subst (λ k. Indexes (ds ++ d ∷ []) (index_one d k g)) (sym e) (index_one-Indexes d ds g x) in
    subst (λ l. Indexes l (group_from (i + 1) vs (index_one d i g)))
      (append_assoc ds (d ∷ []) (destinations vs))
      (group_from-Indexes vs (ds ++ d ∷ []) (index_one d i g) (i + 1)
        (omega (arith, e, length-append ds (d ∷ []))) here)

-- The index that the first loop builds.
pub grouped : (es : List RoundEvent) → Indexes (destinations es) (group_from 0 es [])
unfolding members
grouped es = group_from-Indexes es [] [] 0 refl (record { entries = tt; complete = λ a. refl })
