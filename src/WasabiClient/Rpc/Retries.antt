-- ===== src/WasabiClient/Rpc/Retries.antt =====
-- How `_rpc` ends: by the first decisive answer, or by the last failure once its attempts are used.
use native.Mathlib.Decide.{dec_lt}
use coinjoin_emulator.Base.{
  ◌-◌, ℕ, zero, suc, ◌+◌, ◌≤◌, ◌<◌, ◌≡◌, refl, Bool, true, false, ◌∙◌, Option, none, some, arith,
  Result, ok, err, subst,
}
use coinjoin_emulator.WasabiClient.Rpc.{
  Response, timeout, error, result, neither, RpcFailure, rpc_error, timed_out, is_transient,
  attempts, rpc,
}

-- An answer after which another attempt is made, if one is left.
abbrev pub IsRetried : {A : Type 0} → Response A → Type 0
IsRetried timeout = Unit
IsRetried (error e) = is_transient e ≡ true
IsRetried _ = ⊥

-- An answer that ends the call whatever attempts are left.
abbrev pub IsDecisive : {A : Type 0} → Response A → Type 0
IsDecisive timeout = ⊥
IsDecisive (error e) = is_transient e ≡ false
IsDecisive _ = Unit

-- What an answer that ends the call makes of it.
abbrev pub ends : {A : Type 0} → Response A → Result RpcFailure (Option A)
ends timeout = err timed_out
ends (error e) = err (rpc_error e)
ends (result v) = ok (some v)
ends neither = ok none

module _ {A : Type 0} (repeat : ℕ) (respond : ℕ → Response A) where
  attempts-decisive :
      (n attempt : ℕ) (last : Bool) (r : Response A)
      → respond attempt ≡ r
      → IsDecisive r
      → attempts repeat respond (suc n) attempt last ≡ (ends r, attempt + 1)
  unfolding attempts
  attempts-decisive n attempt last timeout e d = absurd d
  attempts-decisive n attempt last (error x) e d = ground arith
  attempts-decisive n attempt last (result v) e d = ground arith
  attempts-decisive n attempt last neither e d = ground arith

  -- After an answer that is retried, with attempts left, the loop goes on to the next attempt.
  attempts-retried :
      (n attempt : ℕ) (last : Bool) (r : Response A)
      → attempt + 1 < repeat
      → respond attempt ≡ r
      → IsRetried r
      → (last' : Bool) × (attempts repeat respond (suc n) attempt last
          ≡ attempts repeat respond n (attempt + 1) last')
  unfolding attempts
  attempts-retried n attempt last timeout more e d = (true, ground arith)
  attempts-retried n attempt last (error x) more e d = (last, ground arith)
  attempts-retried n attempt last (result v) more e d = absurd d
  attempts-retried n attempt last neither more e d = absurd d

  attempts-last :
      (attempt : ℕ) (last : Bool) (r : Response A)
      → attempt + 1 ≡ repeat
      → respond attempt ≡ r
      → attempts repeat respond 1 attempt last ≡ (ends r, repeat)
  unfolding attempts
  attempts-last attempt last timeout end e = ground arith
  attempts-last attempt last (error x) end e = ground arith
  attempts-last attempt last (result v) end e = ground arith
  attempts-last attempt last neither end e = ground arith

  -- The answers from `attempt` up to `k` are retried, and that at `k` is decisive.
  attempts-first :
      (left attempt k : ℕ) (last : Bool)
      → left + attempt ≡ repeat
      → attempt ≤ k
      → k < repeat
      → ((j : ℕ) → j < k → IsRetried (respond j))
      → IsDecisive (respond k)
      → attempts repeat respond left attempt last ≡ (ends (respond k), k + 1)
  attempts-first zero attempt k last total low high retried d = absurd (omega arith)
  attempts-first (suc left) attempt k last total low high retried d = elim (dec_lt attempt k) [
    | yes more ↦
        let (last', next) =
          attempts-retried left attempt last (respond attempt) (omega arith) refl
            (retried attempt more) in
        next ∙ attempts-first left (attempt + 1) k last' (omega arith) (omega arith) high retried d
    | no here ↦
        let same : k ≡ attempt = omega arith in
        rw same (
          attempts-decisive left attempt last (respond attempt) refl
            (subst (λ i. IsDecisive (respond i)) same d))
  ]

  attempts-all_retried :
      (left attempt : ℕ) (last : Bool)
      → suc left + attempt ≡ repeat
      → ((j : ℕ) → j < repeat → IsRetried (respond j))
      → attempts repeat respond (suc left) attempt last ≡ (ends (respond (repeat - 1)), repeat)
  attempts-all_retried zero attempt last total retried =
      let same : repeat - 1 ≡ attempt = omega arith in
      rw same (attempts-last attempt last (respond attempt) (omega arith) refl)
  attempts-all_retried (suc left) attempt last total retried =
      let (last', next) =
        attempts-retried (suc left) attempt last (respond attempt) (omega arith) refl
          (retried attempt (omega arith)) in
      next ∙ attempts-all_retried left (attempt + 1) last' (omega arith) retried

  -- With a decisive answer at post `k` below the limit, and only retried ones before it, the call
  -- ends as that answer says, after exactly k + 1 posts.
  pub rpc-first :
      (k : ℕ)
      → k < repeat
      → ((j : ℕ) → j < k → IsRetried (respond j))
      → IsDecisive (respond k)
      → rpc repeat respond ≡ (ends (respond k), k + 1)
  unfolding rpc
  rpc-first k high retried d =
      attempts-first repeat 0 k false (omega arith) (omega arith) high retried d

  -- If every answer is one to retry, the call makes all its posts and raises the last failure.
  pub rpc-exhausted :
      0 < repeat
      → ((j : ℕ) → j < repeat → IsRetried (respond j))
      → rpc repeat respond ≡ (ends (respond (repeat - 1)), repeat)
  unfolding rpc
  rpc-exhausted pos retried = go repeat refl
    where
      go :
          (r : ℕ)
          → r ≡ repeat
          → attempts repeat respond r 0 false ≡ (ends (respond (repeat - 1)), repeat)
      go zero e = absurd (omega arith)
      go (suc r) e = attempts-all_retried r 0 false (omega arith) retried
