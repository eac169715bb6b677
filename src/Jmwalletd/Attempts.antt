-- ===== src/Jmwalletd/Attempts.antt =====
-- How a call of jmwalletd ends: by the first answer that is not one to try again.
use coinjoin_emulator.Base.{ℕ, zero, suc, ◌<◌, ◌≡◌, sym, ◌∙◌, ap, arith, Result, ok, err}
use coinjoin_emulator.Jmwalletd.{
  Exchange, RpcError, service_state, Body, Verdict, refuse, unlock, try_again, accept, judge, act,
  attempts, fail_attempt,
}

-- What a verdict that ends the call makes of it.
abbrev pub IsFinal : {A : Type 0} → Verdict A → Result RpcError (Body A) → Type 0
IsFinal (refuse m) out = out ≡ err (service_state m)
IsFinal (accept b) out = out ≡ ok b
IsFinal _ out = ⊥

module _ {A S : Type 0} (request : S → Exchange A × S)
    (unlocks : S → Result RpcError (Unit {0}) × S) where
  -- `k` requests in a row that fail and are made again lead from one state to another.
  pub data Retried : ℕ → S → S → Type 0 where
    no_request : (s : S) → Retried 0 s s
    one_more :
        {k : ℕ} {s t : S} (e : RpcError)
        → judge (request s).0 ≡ try_again e
        → Retried k (request s).1 t
        → Retried (suc k) s t

  act-final :
      (v : Verdict A) (out : Result RpcError (Body A)) (left : ℕ) (s : S)
      → IsFinal v out
      → act request unlocks v left (attempts request unlocks left) s ≡ (out, s)
  unfolding act
  act-final (refuse m) out left s f = ap (λ o. (o, s)) (sym f)
  act-final unlock out left s f = absurd f
  act-final (try_again e) out left s f = absurd f
  act-final (accept b) out left s f = ap (λ o. (o, s)) (sym f)

  act-try_again :
      (v : Verdict A) (e : RpcError) (left : ℕ) (s : S)
      → v ≡ try_again e
      → act request unlocks v (suc left) (attempts request unlocks (suc left)) s
        ≡ attempts request unlocks (suc left) s
  unfolding act fail_attempt
  act-try_again v e left s h =
      ap (λ u. act request unlocks u (suc left) (attempts request unlocks (suc left)) s) h

  -- With attempts left after `k` failures in a row, an answer that ends the call is its outcome, and
  -- no further request is made.
  pub attempts-final :
      {k : ℕ} {s t : S} (repeat : ℕ) (out : Result RpcError (Body A))
      → Retried k s t
      → k < repeat
      → IsFinal (judge (request t).0) out
      → attempts request unlocks repeat s ≡ (out, (request t).1)
  unfolding attempts
  attempts-final zero out r below f = absurd (omega arith)
  attempts-final (suc left) out (no_request s) below f =
      act-final (judge (request s).0) out left (request s).1 f
  attempts-final (suc zero) out (one_more e h r) below f = absurd (omega arith)
  attempts-final (suc (suc left)) out (one_more {k} {s} e h r) below f =
      act-try_again (judge (request s).0) e left (request s).1 h
      ∙ attempts-final {k = k} (suc left) out r (omega arith) f
