-- ===== src/Rounds/Verdict/Sole.antt =====
-- The transaction that a round is attributed to.
use coinjoin_emulator.Base.{
  ◌≡◌, refl, ◌≢◌, ◌∙◌, ap, sym, Bool, true, false, Option, none, some, List, [], ◌∷◌, if◌then◌else◌,
  inl, inr, arith, length, length-append, ◌≤◌, ◌⊎◌, All, Bool-cases, str_eq, eq_iff, ◌==◌, ==_iff,
  ◌&&◌, ◌↔◌, String, some-inj,
}
use coinjoin_emulator.Rounds.{
  Status, RoundEvent, DestinationMatch, add_new, same_match, is_status, sole_txid,
  confirmed_destination_txid,
}
use coinjoin_emulator.Rounds.Agreement.{settled}
use coinjoin_emulator.Rounds.Verdict.{collect, by_count, IsPending, matches-settled, status-settled}

match-eq :
    (m n : DestinationMatch)
    → (str_eq m.txid n.txid && m.block_height == n.block_height) ≡ true
    → m ≡ n
match-eq m n h =
    let t : m.txid ≡ n.txid = ground (arith, h, eq_iff m.txid n.txid) in
    let b : m.block_height ≡ n.block_height = ground (arith, h) in cc (t, b)

attributed :
    (s old : Status) (ms ns : List DestinationMatch)
    → s ≡ by_count old ns
    → ms ≡ ns
    → (old ≡ Status.started) ⊎ (old ≡ Status.failed)
    → (if is_status s Status.confirmed then sole_txid ms else none) ≡ sole_txid ns
unfolding is_status sole_txid
attributed s old ms [] e m (inl p) = rw (e, p)
attributed s old ms [] e m (inr p) = rw (e, p)
attributed s old ms (n ∷ []) e m p = rw (e, m)
attributed s old ms (n ∷ k ∷ ns) e m p = rw e

attributed-eq :
    (shared : Bool) (ms : List DestinationMatch) (e : RoundEvent)
    → IsPending e
    → confirmed_destination_txid (settled shared ms e)
      ≡ (if shared then none else sole_txid (collect ms []))
unfolding confirmed_destination_txid
attributed-eq true ms e p = let s = status-settled true ms e p in rw (s, is_status) refl
attributed-eq false ms e p =
    attributed (settled false ms e).status e.status (settled false ms e).destination_matches
      (collect ms []) (status-settled false ms e p) (matches-settled false ms e p) p.attempt

-- Recording a match again changes nothing.
add_new-same : (m : DestinationMatch) → add_new m (m ∷ []) ≡ m ∷ []
unfolding add_new same_match
add_new-same m =
    let t = (eq_iff m.txid m.txid).1 refl in
    let h = (==_iff m.block_height m.block_height).1 refl in rw (t, h) refl

-- Recording another match makes two.
add_new-other : (m n : DestinationMatch) → n ≢ m → 2 ≤ length (add_new n (m ∷ []))
unfolding add_new same_match
add_new-other m n apart =
    elim (Bool-cases (str_eq m.txid n.txid && m.block_height == n.block_height)) [
      | inl e ↦ absurd (apart (sym (match-eq m n e)))
      | inr e ↦ rw e (omega arith)
    ]

length-add_new :
    (m : DestinationMatch) (ms : List DestinationMatch) → length ms ≤ length (add_new m ms)
unfolding add_new
length-add_new m ms = ground (arith, length-append ms (m ∷ []))

length-collect : (ms at_hand : List DestinationMatch) → length at_hand ≤ length (collect ms at_hand)
length-collect [] at_hand = omega arith
length-collect (m ∷ ms) at_hand =
    omega (arith, length-add_new m at_hand, length-collect ms (add_new m at_hand))

collect-same :
    (m : DestinationMatch) (ms : List DestinationMatch)
    → All (λ x. x ≡ m) ms
    → collect ms (m ∷ []) ≡ m ∷ []
collect-same m [] h = refl
collect-same m (x ∷ ms) h =
    ap (λ y. collect ms (add_new y (m ∷ []))) h.0
    ∙ ap (collect ms) (add_new-same m)
    ∙ collect-same m ms h.1

sole_txid-none : (ms : List DestinationMatch) → 2 ≤ length ms → sole_txid ms ≡ none
unfolding sole_txid
sole_txid-none [] h = refl
sole_txid-none (m ∷ []) h = absurd (omega (arith, h))
sole_txid-none (m ∷ n ∷ ms) h = refl

-- The matches are one, perhaps found again, and its transaction is this one.
abbrev pub IsSole : String → List DestinationMatch → Type 0
IsSole t [] = ⊥
IsSole t (m ∷ ms) = (m.txid ≡ t) × All (λ x. x ≡ m) ms

sole_txid-all :
    (m : DestinationMatch) (ms : List DestinationMatch) (t : String)
    → sole_txid (collect ms (m ∷ [])) ≡ some t
    → IsSole t (m ∷ ms)
unfolding sole_txid add_new same_match
sole_txid-all m [] t h = (some-inj h, tt)
sole_txid-all m (x ∷ ms) t h =
    elim (Bool-cases (str_eq m.txid x.txid && m.block_height == x.block_height)) [
      | inl e ↦
          let (same, rest) = sole_txid-all m ms t (rw e at h) in
          (same, (sym (match-eq m x e), rest))
      | inr e ↦
          let two = length-collect ms (m ∷ x ∷ []) in
          let nothing = sole_txid-none (collect ms (m ∷ x ∷ [])) (omega (arith, two)) in
          let found : sole_txid (collect ms (m ∷ x ∷ [])) ≡ some t = rw e at h in
          absurd (cc (nothing, found))
    ]

sole_txid-collect_iff :
    (ms : List DestinationMatch) (t : String) → (sole_txid (collect ms []) ≡ some t) ↔ IsSole t ms
unfolding sole_txid add_new
sole_txid-collect_iff [] t = ((λ h. absurd (cc h)), (λ h. absurd h))
sole_txid-collect_iff (m ∷ ms) t =
    ((λ h. sole_txid-all m ms t h), (λ h. ap sole_txid (collect-same m ms h.1) ∙ ap some h.0))

unless_shared_iff :
    (shared : Bool) (o : Option String) (t : String)
    → ((if shared then none else o) ≡ some t) ↔ ((shared ≡ false) × (o ≡ some t))
unless_shared_iff true o t = ((λ h. absurd (cc h)), (λ h. absurd (cc (h.0))))
unless_shared_iff false o t = ((λ h. (refl, h)), (λ h. h.1))

-- A pending round is attributed to a transaction exactly when no other round shares its destination
-- and the blocks hold a match for it, the same one wherever they do, which is of that transaction.
pub confirmed_destination_txid-settled :
    (shared : Bool) (ms : List DestinationMatch) (e : RoundEvent) (t : String)
    → IsPending e
    → (confirmed_destination_txid (settled shared ms e) ≡ some t) ↔ ((shared ≡ false) × IsSole t ms)
confirmed_destination_txid-settled shared ms e t p =
    let eq = attributed-eq shared ms e p in
    let (fore, back) = unless_shared_iff shared (sole_txid (collect ms [])) t in
    let (all, one) = sole_txid-collect_iff ms t in
    ((λ h. let (own, sole) = fore (sym eq ∙ h) in (own, all sole)), (λ h. eq ∙ back (h.0, one h.1)))
