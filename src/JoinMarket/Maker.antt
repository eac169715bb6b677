-- ===== src/JoinMarket/Maker.antt =====
-- `MakerClient`: its update starts and stops its offers by its schedule.
use coinjoin_emulator.Base.{
  ℕ, ◌≡◌, refl, ◌∙◌, ap, sym, Bool, true, false, not, ◌&&◌, Option, none, some, List, if◌then◌else◌,
  Result, ok, err, arith,
}
use coinjoin_emulator.Schedule.{Pacing, outside_schedule, is_paused}
use coinjoin_emulator.JoinMarket.{Offer, ClientError, get_offer, or_false}

pub record Maker : Type 0 where
  pub maker_offers : List Offer
  pub maker_pacing : Pacing
  pub maker_running : Bool

-- jmwalletd during one update: whether the yield generator runs, if the session is answered, and
-- whether the stop and the start return. A start that is refused as a conflict returns too.
pub record MakerAnswers : Type 0 where
  pub running : Option Bool
  pub stops : Bool
  pub starts : Bool

-- The maker's flag as the session reports it.
abbrev noted : Bool → Maker → Maker
noted b m = record m { maker_running = b }

start_maker : Option Offer → Bool → Maker → Result ClientError ℕ × Maker
start_maker none starts m = (err ClientError.no_offer, m)
start_maker (some offer) true m = (ok 0, record m { maker_running = true })
start_maker (some offer) false m = (err ClientError.start_failed, m)

stop_maker : Bool → Maker → Result ClientError ℕ × Maker
stop_maker true m = (ok 0, record m { maker_running = false })
stop_maker false m = (err ClientError.stop_failed, m)

-- `update` after the session was answered.
unfoldable pub serve : MakerAnswers → ℕ → ℕ → Maker → Result ClientError ℕ × Maker
unfolding start_maker stop_maker is_paused outside_schedule get_offer
serve a block round m =
    if is_paused m.maker_pacing block round
    then if m.maker_running && outside_schedule m.maker_pacing.schedule block round
      then stop_maker a.stops m
      else (ok 0, m)
    else if not m.maker_running
    then start_maker (get_offer m.maker_offers round) a.starts m
    else (ok 0, m)

unfoldable pub serve_if_answered :
    (Maker → Result ClientError ℕ × Maker) → Option Bool → Maker → Result ClientError ℕ × Maker
serve_if_answered next none m = (err ClientError.no_session, m)
serve_if_answered next (some b) m = next (noted b m)

-- `MakerClient.update`
unfoldable pub update_maker : MakerAnswers → ℕ → ℕ → Maker → Result ClientError ℕ × Maker
unfolding serve serve_if_answered
update_maker a block round m = serve_if_answered (serve a block round) a.running m

-- `MakerClient.update_async`: a session without an answer counts as a maker that does not run.
unfoldable pub update_maker_async : MakerAnswers → ℕ → ℕ → Maker → Result ClientError ℕ × Maker
unfolding serve or_false
update_maker_async a block round m = serve a block round (noted (or_false a.running) m)

-- The flag that an update without an error leaves, by the flag that the session reported.
abbrev pub serving : Bool → Maker → ℕ → ℕ → Bool
serving b m block round =
    if is_paused m.maker_pacing block round
    then b && not (outside_schedule m.maker_pacing.schedule block round)
    else true

start_maker-running :
    (o : Option Offer) (s : Bool) (m : Maker)
    → (start_maker o s m).0 ≡ ok 0
    → (start_maker o s m).1.maker_running ≡ true
unfolding start_maker
start_maker-running none s m h = absurd (cc h)
start_maker-running (some o) true m h = refl
start_maker-running (some o) false m h = absurd (cc h)

stop_maker-running :
    (s : Bool) (m : Maker) → (stop_maker s m).0 ≡ ok 0 → (stop_maker s m).1.maker_running ≡ false
unfolding stop_maker
stop_maker-running true m h = refl
stop_maker-running false m h = absurd (cc h)

serve-serving :
    (a : MakerAnswers) (block round : ℕ) (m : Maker)
    → (serve a block round m).0 ≡ ok 0
    → (serve a block round m).1.maker_running ≡ serving m.maker_running m block round
unfolding serve
serve-serving a block round m h =
    let started = start_maker-running (get_offer m.maker_offers round) a.starts m in
    let stopped = stop_maker-running a.stops m in ground (arith, h, started, stopped)

-- An update that returns leaves the maker running if it is not paused; outside its schedule it is
-- stopped; paused for another reason, it stays as the session reported it.
pub update_maker-serving :
    (a : MakerAnswers) (b : Bool) (block round : ℕ) (m : Maker)
    → a.running ≡ some b
    → (update_maker a block round m).0 ≡ ok 0
    → (update_maker a block round m).1.maker_running ≡ serving b m block round
unfolding update_maker serve_if_answered
update_maker-serving a b block round m s h =
    let same = ap (λ o. serve_if_answered (serve a block round) o m) s in
    ap (λ r. r.1.maker_running) same
    ∙ serve-serving a block round (noted b m) (sym (ap (λ r. r.0) same) ∙ h)
