-- ===== src/WasabiClient/Mixed.antt =====
-- Which coins `_select_mixed_coins` returns, and when it raises.
use mathlib.Core.List.{Perm}
use mathlib.Core.List.Perm
use coinjoin_emulator.Base.{
  ℕ, ◌+◌, ◌≤◌, ◌<◌, ◌≡◌, refl, ap, sym, subst, ◌∙◌, ◌⊎◌, inl, inr, ◌↔◌, ◌≢◌, Bool, true, Option,
  none, some, String, List, [], ◌∷◌, ◌++◌, append-nil, append_assoc, arith, leb, Bool-cases, keep,
  tests, le→leb, ok, err, ◌>>=◌, is_ok, bind-eq-ok, str_eq, eq_iff,
}
use coinjoin_emulator.Base.Sums.{sum, sum-append, sum-perm}
use coinjoin_emulator.Base.Sort.{sort_by-perm}
use coinjoin_emulator.Selection.Drawn.{select_by_amount-perm, select_by_amount-covers}
use coinjoin_emulator.WasabiClient.{
  WasabiCoin, coin_amount, same_coin, SelectionError, is_candidate, candidates, anon_score_from,
  select_coins_by_anon_score, select_coins_by_amount, choose_coins, require_enough,
  select_mixed_coins, check_mixed_coins,
}

same_coin_iff : (a b : WasabiCoin) → (same_coin a b ≡ true) ↔ (a ≡ b)
unfolding same_coin
same_coin_iff a b = ground (arith, eq_iff a.txid b.txid)

-- The scan takes coins from the front until they cover the value.
record Scan (value : ℕ) (cs selected : List WasabiCoin) (total : ℕ) : Type 0 where
  taken : List WasabiCoin
  left : List WasabiCoin
  splits : cs ≡ taken ++ left
  result : (anon_score_from value cs selected total).0 ≡ selected ++ taken
  covers : (value ≤ (anon_score_from value cs selected total).1) ⊎ (left ≡ [])
  sums : (anon_score_from value cs selected total).1 ≡ total + sum coin_amount taken

scan : (value : ℕ) (cs selected : List WasabiCoin) (total : ℕ) → Scan value cs selected total
unfolding anon_score_from
scan value [] selected total = record {
  taken = [];
  left = [];
  splits = refl;
  result = sym (append-nil selected);
  covers = inr refl;
  sums = omega arith;
}
scan value (c ∷ cs) selected total = elim (Bool-cases (leb value total)) [
  | inl e ↦ record {
    taken = [];
    left = c ∷ cs;
    splits = refl;
    result = rw e (sym (append-nil selected));
    covers = rw e (inl (omega tests));
    sums = rw e (omega arith);
  }
  | inr e ↦
      let s = scan value cs (selected ++ c ∷ []) (total + c.amount) in
      record {
        taken = c ∷ s.taken;
        left = s.left;
        splits = ap (λ r. c ∷ r) s.splits;
        result = rw e (s.result ∙ append_assoc selected (c ∷ []) s.taken);
        covers = rw e s.covers;
        sums = rw e (omega (arith, s.sums));
      }
]

-- A selection of coins with its total: coins of the list, once each, and their sum.
abbrev pub Drawn : List WasabiCoin → List WasabiCoin × ℕ → Type 0
Drawn cs (taken, sats) =
    ((left : List WasabiCoin) × Perm (taken ++ left) cs) × (sats ≡ sum coin_amount taken)

anon_score-Drawn :
    (cs : List WasabiCoin) (value : ℕ) → Drawn cs (select_coins_by_anon_score cs value)
unfolding select_coins_by_anon_score
anon_score-Drawn cs value =
    let s = scan value cs [] 0 in
    (
      (
        s.left,
        rw s.result (
            subst (λ z. Perm (s.taken ++ s.left) z) (sym s.splits) (Perm.refl (s.taken ++ s.left))),
      ),
      rw s.result (omega (arith, s.sums)),
    )

anon_score-covers :
    (cs : List WasabiCoin) (value : ℕ)
    → (value ≤ (select_coins_by_anon_score cs value).1) ↔ (value ≤ sum coin_amount cs)
unfolding select_coins_by_anon_score
anon_score-covers cs value =
    let s = scan value cs [] 0 in
    let whole : sum coin_amount cs ≡ sum coin_amount s.taken + sum coin_amount s.left =
      ap (sum coin_amount) s.splits ∙ sum-append coin_amount s.taken s.left in
    (
      λ h. omega (arith, s.sums, whole),
      λ h. elim s.covers [
        | inl c ↦ c
        | inr e ↦
            let none_left : sum coin_amount s.left ≡ 0 = ap (sum coin_amount) e in
            omega (arith, s.sums, whole, none_left)
      ],
    )

amount-Drawn : (cs : List WasabiCoin) (value : ℕ) → Drawn cs (select_coins_by_amount cs value)
unfolding select_coins_by_amount
amount-Drawn cs value = select_by_amount-perm coin_amount same_coin same_coin_iff cs value

amount-covers :
    (cs : List WasabiCoin) (value : ℕ)
    → (value ≤ (select_coins_by_amount cs value).1) ↔ (value ≤ sum coin_amount cs)
unfolding select_coins_by_amount
amount-covers cs value = select_by_amount-covers coin_amount same_coin same_coin_iff cs value

-- The two selections that a wallet supports.
abbrev pub IsSupported : String → Type 0
IsSupported selection = (selection ≡ "amount") ⊎ (selection ≡ "anon_score")

-- A supported selection over a list: what it draws, and when it covers the value.
abbrev Chosen : List WasabiCoin → ℕ → String → Type 0
Chosen cs value selection =
    (r : List WasabiCoin × ℕ) × (choose_coins cs (some value) selection ≡ ok r)
    × Drawn cs r
    × ((value ≤ r.1) ↔ (value ≤ sum coin_amount cs))

choose :
    (cs : List WasabiCoin) (value : ℕ) (selection : String)
    → IsSupported selection
    → Chosen cs value selection
unfolding choose_coins
choose cs value selection (inl e) =
    (select_coins_by_amount cs value, rw e, amount-Drawn cs value, amount-covers cs value)
choose cs value selection (inr e) = (
  select_coins_by_anon_score cs value,
  rw e,
  anon_score-Drawn cs value,
  anon_score-covers cs value,
)

sum-of_empty : (taken : List WasabiCoin) → 0 < sum coin_amount taken → taken ≢ []
sum-of_empty [] h e = absurd (omega arith)
sum-of_empty (c ∷ cs) h e = cc

require-ok :
    (value : ℕ) (taken : List WasabiCoin) (sats : ℕ)
    → sats ≡ sum coin_amount taken
    → 0 < value
    → value ≤ sats
    → require_enough (some value) (taken, sats) ≡ ok (taken, sats)
unfolding require_enough
require-ok value [] sats e pos h = absurd (omega (arith, e))
require-ok value (c ∷ cs) sats e pos h = ground arith

require-err :
    (value : ℕ) (r : List WasabiCoin × ℕ)
    → r.1 < value
    → require_enough (some value) r ≡ err (SelectionError.not_enough r.1 (some value))
unfolding require_enough
require-err value (taken, sats) h = ground arith

require-inv : (value : Option ℕ) (r s : List WasabiCoin × ℕ) → require_enough value r ≡ ok s → r ≡ s
unfolding require_enough
require-inv none ([], sats) s h = cc
require-inv none (c ∷ cs, sats) s h = cc
require-inv (some v) ([], sats) s h = cc
require-inv (some v) (c ∷ cs, sats) s h = ground arith

-- The wallet's coins that may be paid out: confirmed, mixed, and unspent for the node.
abbrev pub eligible : List WasabiCoin → Option ℕ → Option (String → ℕ → Bool) → List WasabiCoin
eligible listed least unspent = keep (is_candidate least unspent) listed

-- The sum reaches the value, if one was asked for.
abbrev pub Covers : Option ℕ → ℕ → Type 0
Covers none total = Unit
Covers (some value) total = value ≤ total

-- No value is asked for, or a positive one, which is what a scenario may hold.
abbrev pub IsPositive : Option ℕ → Type 0
IsPositive none = Unit
IsPositive (some value) = 0 < value

candidates-perm :
    (listed : List WasabiCoin) (least : Option ℕ) (unspent : Option (String → ℕ → Bool))
    → Perm (candidates listed least unspent) (eligible listed least unspent)
unfolding candidates
candidates-perm listed least unspent = sort_by-perm _ (eligible listed least unspent)

choose-inv :
    (cs : List WasabiCoin) (value : Option ℕ) (selection : String) (r : List WasabiCoin × ℕ)
    → choose_coins cs value selection ≡ ok r
    → Drawn cs r
unfolding choose_coins
choose-inv cs none selection r h =
    let e : (cs, sum coin_amount cs) ≡ r = cc in
    subst (Drawn cs) e (([], subst (λ z. Perm z cs) (sym (append-nil cs)) (Perm.refl cs)), refl)
choose-inv cs (some value) selection r h = elim (Bool-cases (str_eq selection "amount")) [
  | inl e ↦
      let p : select_coins_by_amount cs value ≡ r = ground arith in
      subst (Drawn cs) p (amount-Drawn cs value)
  | inr e ↦ elim (Bool-cases (str_eq selection "anon_score")) [
    | inl f ↦
        let p : select_coins_by_anon_score cs value ≡ r = ground arith in
        subst (Drawn cs) p (anon_score-Drawn cs value)
    | inr f ↦ absurd (ground arith)
  ]
]

require-Covers :
    (value : Option ℕ) (r s : List WasabiCoin × ℕ)
    → require_enough value r ≡ ok s
    → Covers value r.1 × (r.0 ≢ [])
unfolding require_enough
require-Covers none ([], sats) s h = absurd (cc)
require-Covers none (c ∷ cs, sats) s h = (tt, cc)
require-Covers (some v) ([], sats) s h = absurd (cc)
require-Covers (some v) (c ∷ cs, sats) s h = (ground arith, cc)

-- What is selected is part of the eligible coins, each once, with its sum; it is not empty, and it
-- covers the value that was asked for.
pub select_mixed_coins_sound :
    (listed : List WasabiCoin) (value least : Option ℕ) (unspent : Option (String → ℕ → Bool))
    (selection : String) (r : List WasabiCoin × ℕ)
    → select_mixed_coins listed value least unspent selection ≡ ok r
    → Drawn (eligible listed least unspent) r × Covers value r.1 × (r.0 ≢ [])
unfolding select_mixed_coins
select_mixed_coins_sound listed value least unspent selection r h =
    let cs = candidates listed least unspent in
    let (s, chosen, kept) = bind-eq-ok (require_enough value) (choose_coins cs value selection) h in
    let ((left, p), total) = choose-inv cs value selection s chosen in
    let same : s ≡ r = require-inv value s r kept in
    subst (λ z. Drawn (eligible listed least unspent) z × Covers value z.1 × (z.0 ≢ [])) same
      (
        ((left, Perm.trans p (candidates-perm listed least unspent)), total),
        (require-Covers value s r kept).0,
        (require-Covers value s r kept).1,
      )

-- For a positive value and a supported selection the call returns exactly when the eligible coins
-- together cover the value.
pub select_mixed_coins-covers :
    (listed : List WasabiCoin) (value : ℕ) (least : Option ℕ) (unspent : Option (String → ℕ → Bool))
    (selection : String)
    → 0 < value
    → IsSupported selection
    → is_ok (select_mixed_coins listed (some value) least unspent selection)
      ≡ leb value (sum coin_amount (eligible listed least unspent))
unfolding select_mixed_coins
select_mixed_coins-covers listed value least unspent selection pos known =
    let cs = candidates listed least unspent in
    let (r, chosen, drawn, covers) = choose cs value selection known in
    let all = sum-perm coin_amount (candidates-perm listed least unspent) in
    rw chosen (elim (Bool-cases (leb value r.1)) [
      | inl e ↦
          let small : value ≤ sum coin_amount cs = covers.0 (omega tests) in
          rw (
            require-ok value r.0 r.1 drawn.1 pos (omega tests),
            le→leb value (sum coin_amount (eligible listed least unspent)) (omega (arith, all)),
          )
      | inr e ↦ rw (require-err value r (omega tests)) (ground (arith, covers.1, all))
    ])

is_ok-check :
    (listed : List WasabiCoin) (value least : Option ℕ) (unspent : Option (String → ℕ → Bool))
    → is_ok (check_mixed_coins listed value least unspent)
      ≡ is_ok (select_mixed_coins listed value least unspent "anon_score")
unfolding check_mixed_coins
is_ok-check listed value least unspent =
    elim (select_mixed_coins listed value least unspent "anon_score")
      as (λ r. is_ok (r >>= λ _. ok tt) ≡ is_ok r) [ ok a ↦ refl | err e ↦ refl ]

-- The dry check, which selects by score, passes exactly when the payment's own selection succeeds
-- over the same coins, for every supported selection and every amount that a scenario may hold.
pub check_mixed_coins-agrees :
    (listed : List WasabiCoin) (value least : Option ℕ) (unspent : Option (String → ℕ → Bool))
    (selection : String)
    → IsPositive value
    → IsSupported selection
    → is_ok (check_mixed_coins listed value least unspent)
      ≡ is_ok (select_mixed_coins listed value least unspent selection)
check_mixed_coins-agrees listed none least unspent selection pos known =
    unfold select_mixed_coins choose_coins in is_ok-check listed none least unspent
check_mixed_coins-agrees listed (some value) least unspent selection pos known =
    is_ok-check listed (some value) least unspent
    ∙ select_mixed_coins-covers listed value least unspent "anon_score" pos (inr refl)
    ∙ sym (select_mixed_coins-covers listed value least unspent selection pos known)
