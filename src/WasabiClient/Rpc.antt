-- ===== src/WasabiClient/Rpc.antt =====
-- `_rpc` and `_is_transient`: a wallet call that is posted again after a timeout and after the
-- wallet's own transient faults. The server is a parameter: what it answers to each post.
pub mod Retries
use text.Mathlib.Text.{find?}
use coinjoin_emulator.Base.{
  ℕ, zero, suc, ◌+◌, ◌≤◌, ◌<◌, ◌≡◌, refl, Bool, true, false, ◌&&◌, ◌||◌, Option, none, some, String,
  arith, ltb, if◌then◌else◌, is_some, Result, ok, err, Bool-cases, inl, inr,
}
use coinjoin_emulator.Base.Int.{ℤ, pos, negsuc, eqb_ℤ}

-- The `error` of an answer: an object with a code and a message, or any other value.
pub data ErrorValue : Type 0 where
  object : Option ℤ → String → ErrorValue
  other : String → ErrorValue

-- What one post brings: a timeout, an error answer, a result, or neither of the two keys.
pub data Response (A : Type 0) : Type 0 where
  timeout : Response A
  error : ErrorValue → Response A
  result : A → Response A
  neither : Response A

-- What `_rpc` raises.
pub data RpcFailure : Type 0 where
  rpc_error : ErrorValue → RpcFailure
  timed_out : RpcFailure
  no_answer : RpcFailure

abbrev json_rpc_internal_error : ℤ
json_rpc_internal_error = negsuc 32602

is_internal : Option ℤ → Bool
is_internal none = false
is_internal (some code) = eqb_ℤ code json_rpc_internal_error

unfoldable pub is_transient : ErrorValue → Bool
unfolding is_internal
is_transient (object code message) =
    is_internal code
    && (is_some (find? message "Destination array was not long enough")
        || is_some (find? message "Collection was modified"))
is_transient (other _) = false

module _ {A : Type 0} (repeat : ℕ) (respond : ℕ → Response A) where
  -- The `for attempt in range(repeat)` loop: attempts left, the attempt, and whether a timeout is
  -- the last error. It returns the outcome with the number of posts made.
  attempts : ℕ → ℕ → Bool → Result RpcFailure (Option A) × ℕ
  attempts zero attempt false = (err no_answer, attempt)
  attempts zero attempt true = (err timed_out, attempt)
  attempts (suc n) attempt last =
      let again = attempts n (attempt + 1) last in
      let after_timeout = attempts n (attempt + 1) true in
      elim (respond attempt) [
        | timeout ↦ after_timeout
        | error e ↦
            if is_transient e && ltb (attempt + 1) repeat
            then again
            else (err (rpc_error e), attempt + 1)
        | result v ↦ (ok (some v), attempt + 1)
        | neither ↦ (ok none, attempt + 1)
      ]

  unfoldable pub rpc : Result RpcFailure (Option A) × ℕ
  unfolding attempts is_transient
  rpc = attempts repeat 0 false
