-- ===== src/Rounds/Confirm/Counting.antt =====
-- What a confirmation scan and a local failure do to the list of round events.
use mathlib.Core.List.{reverse, reverse-append, reverse-reverse}
use mathlib.Core.Path.{ap₂}
use coinjoin_emulator.Base.{
  ℕ, zero, suc, ◌+◌, ◌-◌, ◌≤◌, ◌<◌, ltb, lt→ltb, ltb→lt, not_ltb→le, ◌≡◌, refl, ap, sym, ◌∙◌, subst,
  Bool, true, false, String, List, [], ◌∷◌, ◌++◌, map, if◌then◌else◌, keep, count_if, Result, ok,
  arith, Bool-cases, inl, inr, All, All-append, append_assoc,
}
use coinjoin_emulator.Base.Int.{ℤ, pos, negsuc}
use coinjoin_emulator.Rounds.{RoundEvent}
use coinjoin_emulator.Rounds.Reconcile.{Transaction, RoundError}
use coinjoin_emulator.Rounds.Agreement.{AllTxids, settle, reconcile-settles}
use coinjoin_emulator.Rounds.Confirm.{
  is_started, is_confirmed, blocks_from, next_height, new_blocks, write_back, scanned_to,
  confirm_rounds_in_blocks, count_confirmed_rounds, mark_failed, is_pending_of, mark_first,
  mark_latest_started_round_failed,
}

abbrev pub on_started : (RoundEvent → RoundEvent) → RoundEvent → RoundEvent
on_started f e = if is_started e then f e else e

write_back-nil : (es : List RoundEvent) → write_back es [] ≡ es
unfolding write_back
write_back-nil [] = refl
write_back-nil (e ∷ es) = refl

write_back-skip :
    (e : RoundEvent) (es ps : List RoundEvent)
    → is_started e ≡ false
    → write_back (e ∷ es) ps ≡ e ∷ write_back es ps
unfolding write_back
write_back-skip e es [] h = ap (λ l. e ∷ l) (sym (write_back-nil es))
write_back-skip e es (p ∷ ps) h = rw h

write_back-map :
    (f : RoundEvent → RoundEvent) (es : List RoundEvent)
    → write_back es (map f (keep is_started es)) ≡ map (on_started f) es
unfolding write_back
write_back-map f [] = refl
write_back-map f (e ∷ es) = elim (Bool-cases (is_started e)) [
  | inl h ↦ rw (h, write_back) (rw h (ap (λ l. f e ∷ l) (write_back-map f es)))
  | inr h ↦
      rw h (
        write_back-skip e es (map f (keep is_started es)) h ∙ ap (λ l. e ∷ l) (write_back-map f es))
]

pub confirm_rounds-new_blocks :
    (events : List RoundEvent) (block_at : ℕ → List Transaction) (tip : ℕ) (scanned : ℤ)
    → AllTxids (new_blocks block_at scanned tip)
    → confirm_rounds_in_blocks events block_at tip scanned ≡ (
      ok (pos tip),
      map (on_started (settle (keep is_started events) (new_blocks block_at scanned tip))) events,
    )
unfolding confirm_rounds_in_blocks
confirm_rounds-new_blocks events block_at tip scanned h =
    let blocks = new_blocks block_at scanned tip in
    let pending = keep is_started events in
    ap
      (λ (r : Result RoundError (Unit {0}) × List RoundEvent).
        (scanned_to tip r.0, write_back events r.1))
      (reconcile-settles pending blocks h)
    ∙ ap (λ l. (ok (pos tip), l)) (write_back-map (settle pending blocks) events)

-- The numbers from one on, so many of them.
abbrev count_up : ℕ → ℕ → List ℕ
count_up start zero = []
count_up start (suc n) = start ∷ count_up (start + 1) n

-- Whether a height is above the scanned one.
abbrev pub is_above : ℤ → ℕ → Bool
is_above (pos n) h = ltb n h
is_above (negsuc _) h = true

-- The blocks up to the tip that are above the scanned height, in their order.
abbrev pub unscanned : (ℕ → List Transaction) → ℤ → ℕ → List (ℕ × List Transaction)
unscanned block_at scanned tip =
    map (λ h. (h, block_at h)) (keep (is_above scanned) (count_up 0 (tip + 1)))

blocks_from-map :
    (block_at : ℕ → List Transaction) (start n : ℕ)
    → blocks_from block_at start n ≡ map (λ h. (h, block_at h)) (count_up start n)
unfolding blocks_from
blocks_from-map block_at start zero = refl
blocks_from-map block_at start (suc n) =
    ap (λ l. (start, block_at start) ∷ l) (blocks_from-map block_at (start + 1) n)

keep-all : (start n : ℕ) → keep (λ h. true) (count_up start n) ≡ count_up start n
keep-all start zero = refl
keep-all start (suc n) = ap (λ l. start ∷ l) (keep-all (start + 1) n)

keep-above : (m start n : ℕ) → m < start → keep (ltb m) (count_up start n) ≡ count_up start n
keep-above m start zero h = refl
keep-above m start (suc n) h =
    rw (lt→ltb m start h) (ap (λ l. start ∷ l) (keep-above m (start + 1) n (omega (arith, h))))

keep-from :
    (m start n : ℕ)
    → start ≤ m + 1
    → keep (ltb m) (count_up start n) ≡ count_up (m + 1) (start + n - (m + 1))
keep-from m start zero h =
    let none_left : start + 0 - (m + 1) ≡ 0 = omega (arith, h) in
    ap (count_up (m + 1)) (sym none_left)
keep-from m start (suc n) h = elim (Bool-cases (ltb m start)) [
  | inl above ↦
      let first : start ≡ m + 1 = omega (arith, h, ltb→lt m start above) in
      let many : suc n ≡ start + suc n - (m + 1) = omega (arith, first) in
      keep-above m start (suc n) (ltb→lt m start above) ∙ ap₂ count_up first many
  | inr below ↦
      let low : start + 1 ≤ m + 1 = omega (arith, not_ltb→le m start below) in
      let many : start + 1 + n - (m + 1) ≡ start + suc n - (m + 1) = omega arith in
      rw below (keep-from m (start + 1) n low ∙ ap (count_up (m + 1)) many)
]

new_blocks-unscanned :
    (block_at : ℕ → List Transaction) (scanned : ℤ) (tip : ℕ)
    → new_blocks block_at scanned tip ≡ unscanned block_at scanned tip
unfolding new_blocks next_height
new_blocks-unscanned block_at (pos n) tip =
    let many : tip + 1 - (n + 1) ≡ 0 + (tip + 1) - (n + 1) = omega arith in
    blocks_from-map block_at (n + 1) (tip + 1 - (n + 1))
    ∙ ap (map (λ h. (h, block_at h)))
        (ap (count_up (n + 1)) many ∙ sym (keep-from n 0 (tip + 1) (omega arith)))
new_blocks-unscanned block_at (negsuc k) tip =
    let many : tip + 1 - 0 ≡ tip + 1 = omega arith in
    blocks_from-map block_at 0 (tip + 1 - 0)
    ∙ ap (map (λ h. (h, block_at h))) (ap (count_up 0) many ∙ sym (keep-all 0 (tip + 1)))

-- If the transactions of the blocks above the scanned height have ids, a scan returns the tip, settles
-- every started round among the started ones by those blocks up to the tip, and leaves all other
-- rounds as they are.
pub confirm_rounds_in_blocks-eq :
    (events : List RoundEvent) (block_at : ℕ → List Transaction) (tip : ℕ) (scanned : ℤ)
    → AllTxids (unscanned block_at scanned tip)
    → confirm_rounds_in_blocks events block_at tip scanned ≡ (
      ok (pos tip),
      map (on_started (settle (keep is_started events) (unscanned block_at scanned tip))) events,
    )
confirm_rounds_in_blocks-eq events block_at tip scanned h =
    let same = new_blocks-unscanned block_at scanned tip in
    confirm_rounds-new_blocks events block_at tip scanned (subst AllTxids (sym same) h)
    ∙ ap (λ bs. (ok (pos tip), map (on_started (settle (keep is_started events) bs)) events)) same

count_if-map :
    (p : RoundEvent → Bool) (f : RoundEvent → RoundEvent) (es : List RoundEvent)
    → ((e : RoundEvent) → p e ≡ true → p (f e) ≡ true)
    → count_if p es ≤ count_if p (map f es)
count_if-map p f [] keeps = omega arith
count_if-map p f (e ∷ es) keeps = ground (arith, keeps e, count_if-map p f es keeps)

not_started : (e : RoundEvent) → is_confirmed e ≡ true → is_started e ≡ false
unfolding is_confirmed is_started
not_started e h = ground arith

-- A scan never lowers the number of confirmed rounds, which is the engine's round counter.
pub count_confirmed_rounds-confirm :
    (events : List RoundEvent) (block_at : ℕ → List Transaction) (tip : ℕ) (scanned : ℤ)
    → AllTxids (new_blocks block_at scanned tip)
    → count_confirmed_rounds events
      ≤ count_confirmed_rounds (confirm_rounds_in_blocks events block_at tip scanned).1
unfolding count_confirmed_rounds
count_confirmed_rounds-confirm events block_at tip scanned h =
    rw (confirm_rounds-new_blocks events block_at tip scanned h)
      (count_if-map is_confirmed _ events (λ e c. rw (not_started e c) c))

mark_first-append :
    (taker reason : String) (stop : ℕ) (e : RoundEvent) (pre post : List RoundEvent)
    → All (λ x. is_pending_of taker x ≡ false) pre
    → is_pending_of taker e ≡ true
    → mark_first taker reason stop (pre ++ e ∷ post) ≡ pre ++ mark_failed reason stop e ∷ post
unfolding mark_first
mark_first-append taker reason stop e [] post h p = rw p
mark_first-append taker reason stop e (x ∷ pre) post h p =
    rw h.0 (ap (λ l. x ∷ l) (mark_first-append taker reason stop e pre post h.1 p))

mark_first-none :
    (taker reason : String) (stop : ℕ) (es : List RoundEvent)
    → All (λ x. is_pending_of taker x ≡ false) es
    → mark_first taker reason stop es ≡ es
unfolding mark_first
mark_first-none taker reason stop [] h = refl
mark_first-none taker reason stop (x ∷ es) h =
    rw h.0 (ap (λ l. x ∷ l) (mark_first-none taker reason stop es h.1))

All-reverse : (P : RoundEvent → Type 0) (es : List RoundEvent) → All P es → All P (reverse es)
All-reverse P [] h = tt
All-reverse P (e ∷ es) h =
    subst (All P) (sym (reverse-append (e ∷ []) es))
      (All-append P (reverse es) (e ∷ []) (All-reverse P es h.1) (h.0, tt))

reverse-around :
    (pre post : List RoundEvent) (e : RoundEvent)
    → reverse (pre ++ e ∷ post) ≡ reverse post ++ e ∷ reverse pre
reverse-around pre post e =
    reverse-append pre (e ∷ post)
    ∙ ap (λ l. l ++ reverse pre) (reverse-append (e ∷ []) post)
    ∙ append_assoc (reverse post) (e ∷ []) (reverse pre)

-- The latest pending round of the taker, and no other event, is marked as failed.
pub mark_latest_started_round_failed-found :
    (taker reason : String) (stop : ℕ) (e : RoundEvent) (pre post : List RoundEvent)
    → is_pending_of taker e ≡ true
    → All (λ x. is_pending_of taker x ≡ false) post
    → mark_latest_started_round_failed (pre ++ e ∷ post) taker reason stop
      ≡ pre ++ mark_failed reason stop e ∷ post
unfolding mark_latest_started_round_failed
mark_latest_started_round_failed-found taker reason stop e pre post p h =
    ap (λ l. reverse (mark_first taker reason stop l)) (reverse-around pre post e)
    ∙ ap reverse (
        mark_first-append taker reason stop e (reverse post) (reverse pre)
          (All-reverse (λ x. is_pending_of taker x ≡ false) post h) p)
    ∙ reverse-around (reverse post) (reverse pre) (mark_failed reason stop e)
    ∙ ap₂ (λ xs ys. xs ++ mark_failed reason stop e ∷ ys) (reverse-reverse pre)
        (reverse-reverse post)

-- With no pending round of the taker nothing changes.
pub mark_latest_started_round_failed-none :
    (taker reason : String) (stop : ℕ) (es : List RoundEvent)
    → All (λ x. is_pending_of taker x ≡ false) es
    → mark_latest_started_round_failed es taker reason stop ≡ es
unfolding mark_latest_started_round_failed
mark_latest_started_round_failed-none taker reason stop es h =
    ap reverse (
      mark_first-none taker reason stop (reverse es)
        (All-reverse (λ x. is_pending_of taker x ≡ false) es h))
    ∙ reverse-reverse es
