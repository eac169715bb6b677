-- ===== src/WasabiClient/Examples.antt =====
-- Runs of the coin selection, and the theorems at concrete wallets.
use mathlib.Core.List.{Memᴰ}
use coinjoin_emulator.Base.{
  ℕ, zero, suc, ◌≤◌, ◌<◌, ◌≡◌, refl, inl, true, String, none, some, List, [], ◌∷◌, ok, is_ok, leb,
  arith,
}
use coinjoin_emulator.Base.Sums.{sum}
use coinjoin_emulator.Selection.{select_by_amount}
use coinjoin_emulator.Selection.Smallest.{select_by_amount-smallest}
use coinjoin_emulator.WasabiClient.{
  WasabiCoin, coin_amount, same_coin, select_mixed_coins, check_mixed_coins,
}
use coinjoin_emulator.WasabiClient.Mixed.{
  eligible, select_mixed_coins-covers, check_mixed_coins-agrees,
}
use coinjoin_emulator.WasabiClient.Inputs.{
  SendRequest, send_request, IsShortest, invoice_value, send_request-IsShortest,
}
use coinjoin_emulator.WasabiClient.Rpc.{Response, object, timeout, error, result, is_transient}
use coinjoin_emulator.WasabiClient.Rpc.Retries.{IsRetried}
use coinjoin_emulator.Base.Int.{negsuc}

abbrev coin_a : WasabiCoin
coin_a = record { txid = "a"; index = 0; amount = 500; anonymity_score = 700; confirmed = true }

abbrev coin_b : WasabiCoin
coin_b = record { txid = "b"; index = 1; amount = 90; anonymity_score = 250; confirmed = true }

abbrev change : WasabiCoin
change = record { txid = "c"; index = 0; amount = 4000; anonymity_score = 100; confirmed = true }

abbrev wallet : List WasabiCoin
wallet = coin_b ∷ change ∷ coin_a ∷ []

-- By score the most private coin goes first; by amount the smallest that covers.
by_score : select_mixed_coins wallet (some 80) none none "anon_score" ≡ ok (coin_a ∷ [], 500)
unfolding select_mixed_coins
by_score = refl

by_value : select_mixed_coins wallet (some 80) none none "amount" ≡ ok (coin_b ∷ [], 90)
unfolding select_mixed_coins
by_value = refl

select_mixed_coins-covers_example :
    is_ok (select_mixed_coins wallet (some 591) none none "amount")
    ≡ leb 591 (sum coin_amount (eligible wallet none none))
select_mixed_coins-covers_example =
    select_mixed_coins-covers wallet 591 none none "amount" (omega arith) (inl refl)

check_mixed_coins-agrees_example :
    is_ok (check_mixed_coins wallet (some 80) none none)
    ≡ is_ok (select_mixed_coins wallet (some 80) none none "amount")
check_mixed_coins-agrees_example =
    check_mixed_coins-agrees wallet (some 80) none none "amount" (omega arith) (inl refl)

select_by_amount-smallest_example :
    let (taken, _) = select_by_amount coin_amount same_coin wallet 80 in
    (coin : WasabiCoin) × (taken ≡ coin ∷ []) × (80 ≤ coin_amount coin) × (coin_amount coin ≤ 500)
select_by_amount-smallest_example =
    select_by_amount-smallest coin_amount same_coin wallet 80 coin_a
      (Memᴰ.tail (Memᴰ.tail (Memᴰ.head refl))) (omega arith) (omega arith)

abbrev invoices : List (String × ℕ)
invoices = ("addr1", 60) ∷ ("addr2", 20) ∷ []

abbrev request : SendRequest
request = record { payments = invoices; coins = ("b", 1) ∷ []; fee_target = 2 }

request_runs : send_request wallet invoices ≡ ok request
unfolding send_request
request_runs = refl

send_request-IsShortest_example :
    IsShortest wallet (sum invoice_value invoices) request.coins × (request.payments ≡ invoices)
send_request-IsShortest_example = send_request-IsShortest wallet invoices request request_runs

-- The first post times out, the second meets a transient fault, the third is answered.
abbrev answers : ℕ → Response ℕ
answers zero = timeout
answers (suc zero) = error (object (some (negsuc 32602)) "Collection was modified; retry")
answers (suc (suc n)) = result 7

answers-IsRetried : (j : ℕ) → j < 2 → IsRetried (answers j)
unfolding is_transient
answers-IsRetried zero h = tt
answers-IsRetried (suc zero) h = refl
answers-IsRetried (suc (suc j)) h = absurd (omega arith)

abbrev silence : ℕ → Response ℕ
silence n = timeout

silence-IsRetried : (j : ℕ) → j < 3 → IsRetried (silence j)
silence-IsRetried j h = tt
