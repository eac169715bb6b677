-- ===== src/WasabiClient/Settlement.antt =====
-- `_wait_for_postmix_settlement` and `send_mixed_coins`: a spend of all mixed coins waits until the
-- wallet knows the outcome of its last round.
use coinjoin_emulator.Base.{
  ℕ, zero, suc, Bool, true, false, not, ◌&&◌, String, Option, none, some, List, [], ◌∷◌, map, any,
  if◌then◌else◌, Result, ok, err,
}
use coinjoin_emulator.WasabiClient.{WasabiCoin, SelectionError, select_mixed_coins}
use coinjoin_emulator.WasabiClient.Inputs.{outpoint}

-- One poll before the deadline: whether the wallet is idle, its coins, what the node says of them, and
-- how many of them can be asked about until the deadline.
pub record Poll : Type 0 where
  pub is_idle : Bool
  pub coins : List WasabiCoin
  pub node_unspent : String → ℕ → Bool
  pub in_time : ℕ

-- The `for ... else` loop over the coins.
unfoldable pub all_unspent : ℕ → (String → ℕ → Bool) → List WasabiCoin → Bool
all_unspent n unspent [] = true
all_unspent zero unspent (c ∷ cs) = false
all_unspent (suc n) unspent (c ∷ cs) =
    let rest = all_unspent n unspent cs in if unspent c.txid c.index then rest else false

unfoldable pub is_settled : Poll → Bool
unfolding all_unspent
is_settled p =
    p.is_idle
    && (not (any (λ c. not c.confirmed) p.coins) && all_unspent p.in_time p.node_unspent p.coins)

-- `_wait_for_postmix_settlement`: whether it returns, for a wallet from version 2.6 on or an older one.
unfoldable pub wait_settled : Bool → List Poll → Bool
unfolding is_settled
wait_settled false ps = true
wait_settled true [] = false
wait_settled true (p ∷ ps) = let rest = wait_settled true ps in if is_settled p then true else rest

-- The payment that is requested: the outpoints, and the sum, with the fee subtracted.
pub record MixedRequest : Type 0 where
  pub sendto : String
  pub total : ℕ
  pub spent : List (String × ℕ)

-- What `send_mixed_coins` raises before its request.
pub data PaymentError : Type 0 where
  not_settled : PaymentError
  not_selected : SelectionError → PaymentError

-- `value is None and unspent is not None`
unfoldable pub must_settle : Option ℕ → Option (String → ℕ → Bool) → Bool
must_settle none (some unspent) = true
must_settle _ _ = false

abbrev requested_payment :
    String → Result SelectionError (List WasabiCoin × ℕ) → Result PaymentError MixedRequest
requested_payment destination (err e) = err (not_selected e)
requested_payment destination (ok (selected, sats)) =
    ok (record { sendto = destination; total = sats; spent = map outpoint selected })

-- `send_mixed_coins` up to its request, with the polls of the wait and the coins listed after it.
unfoldable pub mixed_request :
    Bool
    → List Poll
    → List WasabiCoin
    → String
    → Option ℕ
    → Option ℕ
    → Option (String → ℕ → Bool)
    → String
    → Result PaymentError MixedRequest
unfolding wait_settled must_settle select_mixed_coins
mixed_request from_26 polls listed destination value least unspent selection =
    if must_settle value unspent && not (wait_settled from_26 polls)
    then err not_settled
    else requested_payment destination (select_mixed_coins listed value least unspent selection)
