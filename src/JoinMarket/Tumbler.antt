-- ===== src/JoinMarket/Tumbler.antt =====
-- `TumblerClient`: jmwalletd runs the schedule of a tumbler, and a change of the schedule that it reports
-- is one more coinjoin. A schedule is its text.
use coinjoin_emulator.Base.{
  ℕ, Bool, true, false, not, ◌&&◌, String, Option, none, some, str_eq, if◌then◌else◌, Result, ok,
  err,
}
use coinjoin_emulator.Schedule.{Pacing, is_paused}
use coinjoin_emulator.JoinMarket.{ClientError}

pub record Tumbler : Type 0 where
  pub tumbler_pacing : Pacing
  pub in_process : Bool
  pub start : ℕ
  pub last_schedule : Option String
  pub coinjoin_completed : Bool

-- jmwalletd during one update: the state and the schedule of the session, the schedule that a start
-- answers, and whether the schedule can be asked for afterwards.
pub record TumblerAnswers : Type 0 where
  pub reported : Option (Bool × Option String)
  pub run_schedule : Option String
  pub get_schedule : Bool

same_schedule : Option String → Option String → Bool
same_schedule none none = true
same_schedule (some a) (some b) = str_eq a b
same_schedule _ _ = false

-- `update_status`
unfoldable pub note_schedule : Bool → Option String → Tumbler → Tumbler
unfolding same_schedule
note_schedule b schedule t =
    if same_schedule schedule t.last_schedule
    then record t { in_process = b }
    else record t { in_process = b; coinjoin_completed = true; last_schedule = schedule }

unfoldable pub start_schedule : Option String → ℕ → Tumbler → Result ClientError ℕ × Tumbler
start_schedule none block t = (err ClientError.start_failed, t)
start_schedule (some s) block t =
    (ok 0, record t { last_schedule = some s; in_process = true; start = block })

-- The flag is cleared before the schedule is asked for.
unfoldable pub report_completed : Bool → Tumbler → Result ClientError ℕ × Tumbler
report_completed answered t =
    if t.coinjoin_completed
    then (
      if answered then ok 1 else err ClientError.no_session,
      record t { coinjoin_completed = false },
    )
    else (ok 0, t)

unfoldable pub tumble : TumblerAnswers → ℕ → ℕ → Tumbler → Result ClientError ℕ × Tumbler
unfolding start_schedule report_completed is_paused
tumble a block round t =
    if not t.in_process && not (is_paused t.tumbler_pacing block round)
    then start_schedule a.run_schedule block t
    else report_completed a.get_schedule t

unfoldable pub tumble_if_reported :
    (Tumbler → Result ClientError ℕ × Tumbler)
    → Option (Bool × Option String)
    → Tumbler
    → Result ClientError ℕ × Tumbler
unfolding note_schedule
tumble_if_reported next none t = (err ClientError.no_session, t)
tumble_if_reported next (some (b, schedule)) t = next (note_schedule b schedule t)

-- `update`
unfoldable pub update_tumbler : TumblerAnswers → ℕ → ℕ → Tumbler → Result ClientError ℕ × Tumbler
unfolding tumble tumble_if_reported
update_tumbler a block round t = tumble_if_reported (tumble a block round) a.reported t

-- The tumbler as an asynchronous update finds it: without an answer nothing is in process and there
-- is no schedule.
unfoldable pub noted_async : Option (Bool × Option String) → Tumbler → Tumbler
unfolding note_schedule
noted_async none t = note_schedule false none t
noted_async (some (b, schedule)) t = note_schedule b schedule t

-- `update_async`, which awaits the same calls in the same order.
unfoldable pub update_tumbler_async :
    TumblerAnswers → ℕ → ℕ → Tumbler → Result ClientError ℕ × Tumbler
unfolding tumble noted_async
update_tumbler_async a block round t = tumble a block round (noted_async a.reported t)
