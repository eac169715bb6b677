-- ===== src/WasabiClient/Inputs.antt =====
-- `send` of manager/wasabi_clients/wasabi_client_base.py: the inputs that pay a batch of invoices.
-- The shuffle of the coins is the caller's: the coins stand in the order that it left.
use coinjoin_emulator.Base.{
  ℕ, ◌+◌, ◌-◌, ◌≤◌, ◌<◌, ◌≡◌, refl, inl, inr, String, List, [], ◌∷◌, ◌++◌, map, arith, ltb,
  if◌then◌else◌, tests, Result, ok, err, is_ok, Bool-cases, ◌>>=◌, bind-eq-ok, append_assoc, sym,
  subst, ap, ◌∙◌,
}
use coinjoin_emulator.Base.Sums.{sum}
use coinjoin_emulator.WasabiClient.{WasabiCoin, coin_amount}

-- An outpoint of a request: transaction and index.
abbrev pub outpoint : WasabiCoin → String × ℕ
outpoint c = (c.txid, c.index)

-- An addressed invoice: destination and value.
abbrev pub invoice_value : String × ℕ → ℕ
invoice_value i = i.1

-- The parameters of the `send` request.
pub record SendRequest : Type 0 where
  pub payments : List (String × ℕ)
  pub coins : List (String × ℕ)
  pub fee_target : ℕ

pub data SendError : Type 0 where
  not_enough_btc : SendError

-- The `for ... else` loop: coins are taken until they exceed the cost.
unfoldable pub take_inputs :
    List WasabiCoin → ℕ → List (String × ℕ) → Result SendError (List (String × ℕ))
take_inputs [] cost taken = err not_enough_btc
take_inputs (c ∷ cs) cost taken =
    let rest = take_inputs cs (cost - c.amount) (taken ++ outpoint c ∷ []) in
    if ltb cost c.amount then ok (taken ++ outpoint c ∷ []) else rest

unfoldable pub send_request : List WasabiCoin → List (String × ℕ) → Result SendError SendRequest
unfolding take_inputs
send_request coins invoices = take_inputs coins (sum invoice_value invoices) [] >>= λ inputs.
    ok (record { payments = invoices; coins = inputs; fee_target = 2 })

-- The coins taken, the last of them, and the rest of the wallet.
abbrev pub IsShortest : List WasabiCoin → ℕ → List (String × ℕ) → Type 0
IsShortest coins cost inputs =
    (first : List WasabiCoin) × (coin : WasabiCoin) × (rest : List WasabiCoin) × (coins
      ≡ first ++ coin ∷ rest)
    × (inputs ≡ map outpoint (first ++ coin ∷ []))
    × (sum coin_amount first ≤ cost)
    × (cost < sum coin_amount first + coin.amount)

is_ok-bind :
    {A B : Type 0} (r : Result SendError A) (f : A → B) → is_ok (r >>= λ a. ok (f a)) ≡ is_ok r
is_ok-bind (ok a) f = refl
is_ok-bind (err e) f = refl

take_inputs-sum :
    (cs : List WasabiCoin) (cost : ℕ) (taken : List (String × ℕ))
    → is_ok (take_inputs cs cost taken) ≡ ltb cost (sum coin_amount cs)
unfolding take_inputs
take_inputs-sum [] cost taken = ground arith
take_inputs-sum (c ∷ cs) cost taken =
    ground (arith, take_inputs-sum cs (cost - c.amount) (taken ++ outpoint c ∷ []))

take_inputs-IsShortest :
    (cs : List WasabiCoin) (cost : ℕ) (taken inputs : List (String × ℕ))
    → take_inputs cs cost taken ≡ ok inputs
    → (more : List (String × ℕ)) × (inputs ≡ taken ++ more) × IsShortest cs cost more
unfolding take_inputs
take_inputs-IsShortest [] cost taken inputs h = absurd (cc)
take_inputs-IsShortest (c ∷ cs) cost taken inputs h = elim (Bool-cases (ltb cost c.amount)) [
  | inl e ↦ (outpoint c ∷ [], ground arith, ([], c, cs, refl, refl, omega arith, omega tests))
  | inr e ↦
      let (more, split, (first, coin, rest, splits, is, low, high)) =
        take_inputs-IsShortest cs (cost - c.amount) (taken ++ outpoint c ∷ []) inputs
          (ground arith) in
      (
        outpoint c ∷ more,
        split ∙ append_assoc taken (outpoint c ∷ []) more,
        (
          c ∷ first,
          coin,
          rest,
          ap (λ l. c ∷ l) splits,
          ap (λ l. outpoint c ∷ l) is,
          omega tests,
          omega tests,
        ),
      )
]

-- The request is built exactly when the wallet's coins exceed the invoices' sum, so that a fee is
-- left; equality is refused.
pub send_request_iff :
    (coins : List WasabiCoin) (invoices : List (String × ℕ))
    → is_ok (send_request coins invoices) ≡ ltb (sum invoice_value invoices) (sum coin_amount coins)
unfolding send_request
send_request_iff coins invoices =
    is_ok-bind (take_inputs coins (sum invoice_value invoices) []) _
    ∙ take_inputs-sum coins (sum invoice_value invoices) []

-- Its inputs are the shortest run of coins, from the front, that exceeds the invoices' sum, and it
-- pays the invoices as they are.
pub send_request-IsShortest :
    (coins : List WasabiCoin) (invoices : List (String × ℕ)) (request : SendRequest)
    → send_request coins invoices ≡ ok request
    → IsShortest coins (sum invoice_value invoices) request.coins × (request.payments ≡ invoices)
unfolding send_request
send_request-IsShortest coins invoices request h =
    let (inputs, took, built) =
      bind-eq-ok _ (take_inputs coins (sum invoice_value invoices) []) h in
    let (more, split, shortest) =
      take_inputs-IsShortest coins (sum invoice_value invoices) [] inputs took in
    let same : request.coins ≡ more = ground (arith, split) in
    (subst (IsShortest coins (sum invoice_value invoices)) (sym same) shortest, ground arith)
