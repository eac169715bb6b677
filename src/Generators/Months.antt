-- ===== src/Generators/Months.antt =====
-- The locktime of a bond is a month of the calendar.
use coinjoin_emulator.Base.{
  ℕ, zero, suc, ◌+◌, ◌-◌, ◌*◌, ◌≤◌, ◌<◌, ◌≡◌, refl, some, ltb, arith, Bool-cases, inl, inr,
}
use coinjoin_emulator.Generators.{Date, carry_years, locktime_after}

-- The number of months since the year 0.
abbrev pub months_of : Date → ℕ
months_of d = d.0 * 12 + d.1

-- A date in the calendar that is some months after another one.
pub record IsMonthsAfter (months : ℕ) (from to : Date) : Type 0 where
  pub first : 1 ≤ to.1
  pub last : to.1 ≤ 12
  pub later : months_of to ≡ months_of from + months

carry_years-ends :
    (fuel year month : ℕ)
    → 1 ≤ month
    → month < fuel
    → (d : Date) × (carry_years fuel (year, month) ≡ some d) × IsMonthsAfter 0 (year, month) d
unfolding carry_years
carry_years-ends zero year month low room = absurd (omega (arith, room))
carry_years-ends (suc fuel) year month low room = elim (Bool-cases (ltb 12 month)) [
  | inl over ↦
      let above : 12 < month = ground (arith, over) in
      let (d, e, i) =
        carry_years-ends fuel (year + 1) (month - 12) (omega (arith, above))
          (omega (arith, above, room)) in
      (
        d,
        rw over e,
        record { first = i.first; last = i.last; later = omega (arith, i.later, above) },
      )
  | inr fits ↦ (
    (year, month),
    rw fits refl,
    record { first = low; last = ground (arith, fits); later = omega arith },
  )
]

-- From a month of the calendar, the loop over the years ends with a month of the calendar, exactly as
-- many months later.
pub locktime_after-IsMonthsAfter :
    (months : ℕ) (from : Date)
    → 1 ≤ from.1
    → (d : Date) × (locktime_after months from ≡ some d) × IsMonthsAfter months from d
unfolding locktime_after
locktime_after-IsMonthsAfter months (year, month) low =
    let (d, e, i) =
      carry_years-ends (suc (month + months)) year (month + months) (omega (arith, low))
        (omega arith) in
    (d, e, record { first = i.first; last = i.last; later = omega (arith, i.later) })
