-- ===== src/JoinMarket/Taker/Attempts.antt =====
-- What an update of a taker does on its branches, and where `update_async` differs from `update`.
use coinjoin_emulator.Base.{
  ℕ, ◌≡◌, ◌∙◌, ap, sym, Bool, true, false, ◌&&◌, some, List, [], ◌∷◌, if◌then◌else◌, ok, arith,
}
use coinjoin_emulator.Base.Int.{pos, negsuc}
use coinjoin_emulator.Schedule.{is_paused}
use coinjoin_emulator.JoinMarket.{or_false}
use coinjoin_emulator.JoinMarket.Taker.{
  Taker, Answers, coinjoin_timed_out, refreshed, stop_timed_out, proceed, proceed_async, update,
  update_async, if_answered,
}

proceed-agree :
    (a : Answers) (block round : ℕ) (t : Taker)
    → (t.coinjoin_in_process && is_paused t.pacing block round) ≡ false
    → proceed_async a block round t ≡ proceed a block round t
unfolding proceed proceed_async
proceed-agree a block round t h = ground (arith, h)

in_process-refreshed : (b : Bool) (t : Taker) → (refreshed b t).coinjoin_in_process ≡ b
unfolding refreshed
in_process-refreshed b t = ground arith

-- With an answer about the session an update goes on with the refreshed taker.
pub update-proceed :
    (a : Answers) (b : Bool) (block round : ℕ) (t : Taker)
    → a.session ≡ some b
    → update a block round t ≡ proceed a block round (refreshed b t)
unfolding update if_answered
update-proceed a b block round t s = ap (λ o. if_answered (proceed a block round) o t) s

update_async-proceed :
    (a : Answers) (b : Bool) (block round : ℕ) (t : Taker)
    → a.session ≡ some b
    → update_async a block round t ≡ proceed_async a block round (refreshed b t)
unfolding update_async or_false
update_async-proceed a b block round t s =
    ap (λ o. proceed_async a block round (refreshed (or_false o) t)) s

-- When the session is answered, and no coinjoin is in process while the taker is paused, the
-- asynchronous update returns, raises and leaves what the synchronous one does.
pub update_async-update :
    (a : Answers) (b : Bool) (block round : ℕ) (t : Taker)
    → a.session ≡ some b
    → (b && is_paused (refreshed b t).pacing block round) ≡ false
    → update_async a block round t ≡ update a block round t
update_async-update a b block round t s h =
    update_async-proceed a b block round t s
    ∙ proceed-agree a block round (refreshed b t) (rw (in_process-refreshed b t) h)
    ∙ sym (update-proceed a b block round t s)

proceed_async_paused :
    (a : Answers) (block round : ℕ) (u : Taker)
    → u.coinjoin_in_process ≡ true
    → is_paused u.pacing block round ≡ true
    → proceed_async a block round u ≡ (ok (pos 0), u)
unfolding proceed_async
proceed_async_paused a block round u q h = ground (arith, q, h)

proceed_paused :
    (a : Answers) (block round : ℕ) (u : Taker)
    → u.coinjoin_in_process ≡ true
    → is_paused u.pacing block round ≡ true
    → proceed a block round u ≡ (
        if coinjoin_timed_out u block
        then (ok (negsuc 0), stop_timed_out block u)
        else (ok (pos 0), u))
unfolding proceed
proceed_paused a block round u q h = ground (arith, q, h)

-- With a coinjoin in process in a paused taker, the asynchronous update returns 0 and leaves the
-- coinjoin running, while the synchronous one stops it once it has timed out.
pub update_async_paused :
    (a : Answers) (block round : ℕ) (t : Taker)
    → a.session ≡ some true
    → is_paused (refreshed true t).pacing block round ≡ true
    → (update_async a block round t ≡ (ok (pos 0), refreshed true t))
      × (update a block round t ≡ (
          if coinjoin_timed_out (refreshed true t) block
          then (ok (negsuc 0), stop_timed_out block (refreshed true t))
          else (ok (pos 0), refreshed true t)))
update_async_paused a block round t s h =
    let u = refreshed true t in
    let q = in_process-refreshed true t in
    (
      update_async-proceed a true block round t s ∙ proceed_async_paused a block round u q h,
      update-proceed a true block round t s ∙ proceed_paused a block round u q h,
    )

-- What an update is given: jmwalletd's answers, the block and the round.
abbrev pub Tick : Type 0
Tick = Answers × (ℕ × ℕ)

-- The taker after its asynchronous updates, one after the other.
abbrev pub run_async : List Tick → Taker → Taker
run_async [] t = t
run_async ((a, (block, round)) ∷ ticks) t = run_async ticks (update_async a block round t).1

-- At each update jmwalletd reports a coinjoin in process, and the taker is paused.
abbrev pub IsHeld : List Tick → Taker → Type 0
IsHeld [] t = Unit
IsHeld ((a, (block, round)) ∷ ticks) t =
    (a.session ≡ some true)
    × (is_paused (refreshed true t).pacing block round ≡ true)
    × IsHeld ticks (update_async a block round t).1
