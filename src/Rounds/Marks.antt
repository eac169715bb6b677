-- ===== src/Rounds/Marks.antt =====
-- Events that share a destination: the loop over the index marks exactly those.
use mathlib.Core.Path.{ap₂, fun_ext}
use mathlib.Core.List.{map-id}
use coinjoin_emulator.Base.{
  ℕ, ◌≡◌, refl, ◌∙◌, ap, sym, subst, Bool, true, false, ◌&&◌, ◌||◌, String, Option, none, some,
  List, [], ◌∷◌, map, str_eq, eq_iff, if◌then◌else◌, Bool-cases, inl, inr, length, arith, ltb,
}
use coinjoin_emulator.Rounds.{
  ExecutionStatus, set_default, local_execution, RoundEvent, destination_address,
  mark_duplicate_destination,
}
use coinjoin_emulator.Rounds.Reconcile.{Groups, group_from, mark_shared, modify_all}
use coinjoin_emulator.Rounds.Refs.{is_at, places, destinations, at_address, modify_all-places}
use coinjoin_emulator.Rounds.Groups.{has_key, IsIndex, members-no_key, Indexes, grouped}

-- Another event has the same destination.
abbrev pub is_shared : List (Option String) → Option String → Bool
is_shared ds none = false
is_shared ds (some a) = ltb 1 (length (places a 0 ds))

-- Some entry of the address lists more than one event.
abbrev marked : Groups → Option String → Bool
marked [] d = false
marked ((j, is) ∷ g) d = (is_at j d && ltb 1 (length is)) || marked g d

marked-no_key : (a : String) (g : Groups) → has_key a g ≡ false → marked g (some a) ≡ false
marked-no_key a [] h = refl
marked-no_key a ((j, is) ∷ g) h = ground (arith, eq_iff j a, eq_iff a j, marked-no_key a g)

or_false : (b : Bool) → (b || false) ≡ b
or_false true = refl
or_false false = refl

marked-key :
    (ds : List (Option String)) (a : String) (g : Groups)
    → IsIndex ds g
    → has_key a g ≡ true
    → marked g (some a) ≡ ltb 1 (length (places a 0 ds))
marked-key ds a [] h k = cc
marked-key ds a ((j, is) ∷ g) h k = elim (Bool-cases (str_eq j a)) [
  | inl e ↦
      let p : j ≡ a = (eq_iff j a).0 e in
      let same : is ≡ places a 0 ds = h.0 ∙ ap (λ z. places z 0 ds) p in
      let off = marked-no_key a g (subst (λ z. has_key z g ≡ false) p h.1) in
      rw ((eq_iff a j).1 (sym p), same, off) (or_false (ltb 1 (length (places a 0 ds))))
  | inr e ↦
      let apart : str_eq a j ≡ false = ground (arith, eq_iff a j, eq_iff j a) in
      rw apart (marked-key ds a g h.2 (ground arith))
]

-- An event is marked exactly if another one has its destination.
marked-eq-shared :
    (ds : List (Option String)) (g : Groups) (d : Option String)
    → Indexes ds g
    → marked g d ≡ is_shared ds d
marked-eq-shared ds g none x = go g
  where
    go : (g : Groups) → marked g none ≡ false
    go [] = refl
    go ((j, is) ∷ g) = go g
marked-eq-shared ds g (some a) x = elim (Bool-cases (has_key a g)) [
  | inl e ↦ marked-key ds a g x.entries e
  | inr e ↦
      let empty : places a 0 ds ≡ [] = sym (x.complete a) ∙ members-no_key a g e in
      rw empty (marked-no_key a g e)
]

pub destination-mark :
    (e : RoundEvent) → destination_address (mark_duplicate_destination e) ≡ destination_address e
unfolding destination_address mark_duplicate_destination
destination-mark e = refl

set_default-none : (o : Option ExecutionStatus) → set_default o none ≡ o
unfolding set_default
set_default-none none = refl
set_default-none (some s) = refl

mark-mark :
    (e : RoundEvent)
    → mark_duplicate_destination (mark_duplicate_destination e) ≡ mark_duplicate_destination e
unfolding mark_duplicate_destination
mark-mark e =
    ap (λ x. record (mark_duplicate_destination e) { execution_status = x })
      (set_default-none (set_default e.execution_status (local_execution e.status)))

-- The update of one event by the second loop.
abbrev pub mark_if : Bool → RoundEvent → RoundEvent
mark_if b e = if b then mark_duplicate_destination e else e

mark_if-mark :
    (b : Bool) (e : RoundEvent)
    → mark_if b (mark_duplicate_destination e) ≡ mark_duplicate_destination e
mark_if-mark true e = mark-mark e
mark_if-mark false e = refl

abbrev mark_by : Groups → RoundEvent → RoundEvent
mark_by g e = mark_if (marked g (destination_address e)) e

mark_by-cons :
    (j : String) (is : List ℕ) (g : Groups) (e : RoundEvent)
    → ltb 1 (length is) ≡ true
    → mark_by g (at_address j mark_duplicate_destination e) ≡ mark_by ((j, is) ∷ g) e
mark_by-cons j is g e many = elim (Bool-cases (is_at j (destination_address e))) [
  | inl p ↦
      rw (p, many) (mark_if-mark (marked g (destination_address (mark_duplicate_destination e))) e)
  | inr p ↦ rw p
]

destinations-at_address :
    (j : String) (es : List RoundEvent)
    → destinations (map (at_address j mark_duplicate_destination) es) ≡ destinations es
destinations-at_address j [] = refl
destinations-at_address j (e ∷ es) = elim (Bool-cases (is_at j (destination_address e))) [
  | inl p ↦ rw p (ap₂ (λ d ds. d ∷ ds) (destination-mark e) (destinations-at_address j es))
  | inr p ↦ rw p (ap (λ ds. destination_address e ∷ ds) (destinations-at_address j es))
]

map-mark_by :
    (j : String) (is : List ℕ) (g : Groups) (es : List RoundEvent)
    → ltb 1 (length is) ≡ true
    → map (mark_by g) (map (at_address j mark_duplicate_destination) es)
      ≡ map (mark_by ((j, is) ∷ g)) es
map-mark_by j is g [] many = refl
map-mark_by j is g (e ∷ es) many =
    ap₂ (λ x xs. x ∷ xs) (mark_by-cons j is g e many) (map-mark_by j is g es many)

map-mark_by_few :
    (j : String) (is : List ℕ) (g : Groups) (es : List RoundEvent)
    → ltb 1 (length is) ≡ false
    → map (mark_by g) es ≡ map (mark_by ((j, is) ∷ g)) es
map-mark_by_few j is g [] few = refl
map-mark_by_few j is g (e ∷ es) few =
    ap₂ (λ x xs. x ∷ xs) (ground (arith, few)) (map-mark_by_few j is g es few)

-- The second loop marks each event that has an entry with company.
mark_shared-map :
    (g : Groups) (es : List RoundEvent)
    → IsIndex (destinations es) g
    → mark_shared g es ≡ map (mark_by g) es
unfolding mark_shared
mark_shared-map [] es h = sym (map-id es)
mark_shared-map ((j, is) ∷ g) es h = elim (Bool-cases (ltb 1 (length is))) [
  | inl many ↦
      let updated : modify_all is mark_duplicate_destination es
          ≡ map (at_address j mark_duplicate_destination) es =
        ap (λ l. modify_all l mark_duplicate_destination es) h.0
        ∙ modify_all-places j mark_duplicate_destination es in
      rw (many, updated)
        (mark_shared-map g (map (at_address j mark_duplicate_destination) es)
            (subst (λ ds. IsIndex ds g) (sym (destinations-at_address j es)) h.2)
          ∙ map-mark_by j is g es many)
  | inr few ↦ rw few (mark_shared-map g es h.2 ∙ map-mark_by_few j is g es few)
]

-- The first two loops mark exactly the events whose destination another event shares.
pub mark_shared-eq :
    (es : List RoundEvent)
    → mark_shared (group_from 0 es []) es
      ≡ map (λ e. mark_if (is_shared (destinations es) (destination_address e)) e) es
mark_shared-eq es =
    let x = grouped es in
    mark_shared-map (group_from 0 es []) es x.entries
    ∙ ap (λ (f : Option String → Bool). map (λ e. mark_if (f (destination_address e)) e) es)
        (fun_ext (λ d. marked-eq-shared (destinations es) (group_from 0 es []) d x))
