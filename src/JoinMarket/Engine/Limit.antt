-- ===== src/JoinMarket/Engine/Limit.antt =====
-- The round counter after a tick of the synchronous update, and such a tick at the round limit.
use coinjoin_emulator.Base.{
  ℕ, zero, suc, ◌≤◌, ◌≡◌, refl, sym, ◌∙◌, ap, Bool, true, List, [], ◌∷◌, ◌++◌, take, drop, length,
  arith, length-append, length-drop, if◌then◌else◌, Bool-cases, inl, inr, Result, ok, err,
  take-append-drop,
}
use coinjoin_emulator.Base.Int.{ℤ}
use coinjoin_emulator.Rounds.{RoundEvent}
use coinjoin_emulator.Rounds.Reconcile.{Transaction, RoundError}
use coinjoin_emulator.Rounds.Agreement.{AllTxids}
use coinjoin_emulator.Rounds.Confirm.{
  is_started, new_blocks, write_back, confirm_rounds_in_blocks, count_confirmed_rounds,
}
use coinjoin_emulator.Rounds.Confirm.Counting.{count_confirmed_rounds-confirm}
use coinjoin_emulator.JoinMarket.Engine.{
  Client, taker, maker, tumbler, ClientAnswers, events_of, with_events, live_round_events,
  give_back, update_clients_from, Engine, round_limit_reached, after_clients_scan, confirm_clients,
  unless_limited, update_coinjoins,
}
use coinjoin_emulator.JoinMarket.Engine.Counter.{confirmed, confirmed-update_clients}

length-write_back : (es ps : List RoundEvent) → length (write_back es ps) ≡ length es
unfolding write_back
length-write_back [] ps = refl
length-write_back (e ∷ es) [] = refl
length-write_back (e ∷ es) (p ∷ ps) = elim (Bool-cases (is_started e)) [
  | inl s ↦ rw s (ap suc (length-write_back es ps))
  | inr s ↦ rw s (ap suc (length-write_back es (p ∷ ps)))
]

length-confirm :
    (es : List RoundEvent) (block_at : ℕ → List Transaction) (tip : ℕ) (scanned : ℤ)
    → length (confirm_rounds_in_blocks es block_at tip scanned).1 ≡ length es
unfolding confirm_rounds_in_blocks
length-confirm es block_at tip scanned = length-write_back es _

events-with_events :
    (c : Client) (es : List RoundEvent)
    → length es ≡ length (events_of c)
    → events_of (with_events es c) ≡ es
unfolding events_of with_events
events-with_events (taker t) es h = refl
events-with_events (maker n m) [] h = refl
events-with_events (maker n m) (e ∷ es) h = absurd (omega (arith, h))
events-with_events (tumbler n t) [] h = refl
events-with_events (tumbler n t) (e ∷ es) h = absurd (omega (arith, h))

length-take : (n : ℕ) (es : List RoundEvent) → n ≤ length es → length (take n es) ≡ n
length-take zero es h = refl
length-take (suc n) [] h = absurd (omega arith)
length-take (suc n) (e ∷ es) h = ap suc (length-take n es (omega (arith, h)))

-- What is given back to the clients is what their live events are then.
pub live-give_back :
    (cs : List Client) (es : List RoundEvent)
    → length es ≡ length (live_round_events cs)
    → live_round_events (give_back es cs) ≡ es
unfolding live_round_events give_back
live-give_back [] [] h = refl
live-give_back [] (e ∷ es) h = absurd (omega (arith, h))
live-give_back (c ∷ cs) es h =
    let n = length (events_of c) in
    let all = length-append (events_of c) (live_round_events cs) in
    let own = events-with_events c (take n es) (length-take n es (omega (arith, h, all))) in
    let others = live-give_back cs (drop n es) (omega (arith, h, all, length-drop n es)) in
    ap (λ l. l ++ live_round_events (give_back (drop n es) cs)) own
    ∙ ap (λ l. take n es ++ l) others
    ∙ take-append-drop n es

scan-counted :
    (e : Engine) (out : Result RoundError ℤ × List RoundEvent)
    → length out.1 ≡ length (live_round_events e.clients)
    → (after_clients_scan e out).0 ≡ ok tt
    → (after_clients_scan e out).1.current_round
      ≡ confirmed (live_round_events (after_clients_scan e out).1.clients)
unfolding after_clients_scan count_confirmed_rounds
scan-counted e (ok height, es) same h = ap confirmed (sym (live-give_back e.clients es same))
scan-counted e (err x, es) same h = absurd (cc h)

-- An engine whose counter is the number of its confirmed rounds.
abbrev pub IsCounted : Engine → Type 0
IsCounted e = e.current_round ≡ confirmed (live_round_events e.clients)

unless_limited-IsCounted :
    (next : Engine → List Client) (out : Result RoundError (Unit {0}) × Engine)
    → ((e : Engine)
        → confirmed (live_round_events (next e)) ≡ confirmed (live_round_events e.clients))
    → (out.0 ≡ ok tt → IsCounted out.1)
    → (unless_limited next out).0 ≡ ok tt
    → IsCounted (unless_limited next out).1
unfolding unless_limited
unless_limited-IsCounted next (err x, e) keeps counted h = absurd (cc h)
unless_limited-IsCounted next (ok _, e) keeps counted h =
    elim (Bool-cases (round_limit_reached e)) [
      | inl limited ↦ rw limited (counted refl)
      | inr below ↦ rw below (counted refl ∙ sym (keeps e))
    ]

-- A tick of the synchronous update that returns leaves the counter at the number of confirmed rounds of all clients, whatever
-- it was before: no update and no timeout confirms a round, or takes a confirmation back.
pub update_coinjoins-IsCounted :
    (block_at : ℕ → List Transaction) (tip : ℕ) (answers : ℕ → ClientAnswers) (e : Engine)
    → (update_coinjoins block_at tip answers e).0 ≡ ok tt
    → IsCounted (update_coinjoins block_at tip answers e).1
unfolding update_coinjoins confirm_clients
update_coinjoins-IsCounted block_at tip answers e h =
    let live = live_round_events e.clients in
    let out = confirm_rounds_in_blocks live block_at tip e.scanned_height in
    unless_limited-IsCounted
      (λ s.
        update_clients_from answers s.current_block s.current_round 0 (length s.clients) s.clients)
      (after_clients_scan e out)
      (λ s.
        confirmed-update_clients answers s.current_block s.current_round 0 (length s.clients)
          s.clients)
      (scan-counted e out (length-confirm live block_at tip e.scanned_height)) h

scan-limited :
    (e : Engine) (out : Result RoundError ℤ × List RoundEvent)
    → round_limit_reached e ≡ true
    → e.current_round ≤ confirmed out.1
    → round_limit_reached (after_clients_scan e out).1 ≡ true
unfolding after_clients_scan count_confirmed_rounds round_limit_reached
scan-limited e (ok height, es) limited more = ground (arith, limited, more)
scan-limited e (err x, es) limited more = limited

scan-length :
    (e : Engine) (out : Result RoundError ℤ × List RoundEvent)
    → length out.1 ≡ length (live_round_events e.clients)
    → length (live_round_events (after_clients_scan e out).1.clients)
      ≡ length (live_round_events e.clients)
unfolding after_clients_scan
scan-length e (ok height, es) same = ap length (live-give_back e.clients es same) ∙ same
scan-length e (err x, es) same = ap length (live-give_back e.clients es same) ∙ same

unless_limited-eq :
    (next : Engine → List Client) (out : Result RoundError (Unit {0}) × Engine)
    → round_limit_reached out.1 ≡ true
    → (unless_limited next out).1 ≡ out.1
unfolding unless_limited
unless_limited-eq next (err x, e) limited = refl
unless_limited-eq next (ok _, e) limited =
    ap (λ b. state_of b (ok tt, e) (ok tt, record e { clients = next e })) limited
  where
    state_of :
        Bool
        → Result RoundError (Unit {0}) × Engine
        → Result RoundError (Unit {0}) × Engine
        → Engine
    state_of b x y = (if b then x else y).1

-- At the round limit, with an exact counter, a tick of the synchronous update records no attempt, and the
-- limit stays reached.
pub update_coinjoins_limited :
    (block_at : ℕ → List Transaction) (tip : ℕ) (answers : ℕ → ClientAnswers) (e : Engine)
    → AllTxids (new_blocks block_at e.scanned_height tip)
    → IsCounted e
    → round_limit_reached e ≡ true
    → (round_limit_reached (update_coinjoins block_at tip answers e).1 ≡ true)
      × (length (live_round_events (update_coinjoins block_at tip answers e).1.clients)
          ≡ length (live_round_events e.clients))
unfolding update_coinjoins confirm_clients count_confirmed_rounds
update_coinjoins_limited block_at tip answers e ids counted limited =
    let live = live_round_events e.clients in
    let out = confirm_rounds_in_blocks live block_at tip e.scanned_height in
    let more = count_confirmed_rounds-confirm live block_at tip e.scanned_height ids in
    let still = scan-limited e out limited (omega (arith, counted, more)) in
    let same =
      unless_limited-eq
        (λ s.
          update_clients_from answers s.current_block s.current_round 0 (length s.clients)
            s.clients)
        (after_clients_scan e out) still in
    (
      ap round_limit_reached same ∙ still,
      ap (λ (s : Engine). length (live_round_events s.clients)) same
          ∙ scan-length e out (length-confirm live block_at tip e.scanned_height),
    )
