-- ===== src/Transfers/Examples.antt =====
-- Two payments of a wallet that refuses every request; a world is the time and what was paid.
use coinjoin_emulator.Base.{ℕ, ◌+◌, ◌≡◌, refl, String, some, List, [], ◌∷◌, err, true, arith}
use coinjoin_emulator.Jmwalletd.Waiting.{Clock}
use coinjoin_emulator.Transfers.{
  Request, after_request, send_until, simple_send, after_funding, send,
}
use coinjoin_emulator.Transfers.Unsent.{IsClock, IsDown}
use coinjoin_emulator.Transfers.Lost.{distribute, pay_invoices-IsLost}
use coinjoin_emulator.Funding.{pay_invoices}

abbrev World : Type 0
World = ℕ × ℕ

abbrev counting : Clock World
counting = record { time = λ w. w.0; sleep = λ d w. (w.0 + d, w.1) }

abbrev refusing : Request World
refusing to v w = (err "refused", w)

abbrev two_payments : List (String × ℕ)
two_payments = ("a", 100) ∷ ("b", 200) ∷ []

abbrev counting-IsClock : IsClock counting refusing
counting-IsClock = record { slept = λ d s. omega arith; went_on = λ to v s. omega arith }

abbrev refusing-IsDown : IsDown counting refusing (λ w. w.1)
refusing-IsDown = record { unpaid = λ to v s. refl; slept_unpaid = λ d s. refl }

-- Each payment is tried for its thirty seconds.
send_refused : send counting refusing two_payments (0, 7) ≡ some (70000, 7)
unfolding send simple_send send_until after_request after_funding
send_refused = refl

pay_invoices-IsLost_example :
    ((pay_invoices (distribute counting refusing) two_payments (0, 7)).succeeded ≡ true)
    × ((pay_invoices (distribute counting refusing) two_payments (0, 7)).unpaid ≡ [])
    × ((pay_invoices (distribute counting refusing) two_payments (0, 7)).world.1 ≡ 7)
pay_invoices-IsLost_example =
    pay_invoices-IsLost counting refusing (λ w. w.1) counting-IsClock refusing-IsDown two_payments
      (0, 7)
