-- ===== src/Jmwalletd.antt =====
-- The calls of jmwalletd in
-- manager/wasabi_clients/joinmarket_clients/joinmarket_client_base.py: `_rpc`, `_rpc_async` and what
-- they make of an answer. The server is a parameter: what it answers to a request with a token.
pub mod Attempts
pub mod Posts
pub mod Waiting
mod Examples
use coinjoin_emulator.Base.{
  ℕ, zero, suc, ◌+◌, Bool, true, false, not, String, Option, none, some, leb, ◌==◌, if◌then◌else◌,
  str_eq, Result, ok, err, or_default,
}

-- A JSON object: the entries that the calls read, and the object.
pub record Document (A : Type 0) : Type 0 where
  pub message : Option String
  pub token : Option String
  pub content : A

-- The body of an answer: no JSON, an object, or any other JSON value.
pub data Body (A : Type 0) : Type 0 where
  unreadable : Body A
  object : Document A → Body A
  other_value : A → Body A

-- An answer, with whether it has the header `WWW-Authenticate`.
pub record Reply (A : Type 0) : Type 0 where
  pub status_code : ℕ
  pub has_challenge : Bool
  pub body : Body A

-- What a request brings: an exception of the transport, or an answer.
pub data Exchange (A : Type 0) : Type 0 where
  lost : Exchange A
  replied : Reply A → Exchange A

-- What a call raises.
pub data RpcError : Type 0 where
  service_state : Option String → RpcError
  conflict : RpcError
  http_status : ℕ → RpcError
  not_json : RpcError
  transport : RpcError
  stayed_unauthorized : RpcError
  too_deep : RpcError

abbrev invalid_credentials : String
invalid_credentials = "Invalid credentials."

is_invalid_credentials : Option String → Bool
is_invalid_credentials none = false
is_invalid_credentials (some message) = str_eq message invalid_credentials

-- The part of `_is_auth_failure` that reads the body.
unfoldable pub speaks_of_credentials : {A : Type 0} → Body A → Bool
unfolding is_invalid_credentials
speaks_of_credentials unreadable = true
speaks_of_credentials (object d) = is_invalid_credentials d.message
speaks_of_credentials (other_value _) = true

-- `_is_auth_failure`
unfoldable pub is_auth_failure : {A : Type 0} → Reply A → Bool
unfolding speaks_of_credentials
is_auth_failure r =
    if not (r.status_code == 401)
    then false
    else if r.has_challenge
    then true
    else speaks_of_credentials r.body

-- `_error_message`, of an answer that is not one about the credentials; `none` is its text.
unfoldable pub error_message : {A : Type 0} → Body A → Option String
error_message (object d) = d.message
error_message _ = none

-- What an attempt does next: it raises at once, unlocks the wallet, fails and may be made again, or
-- returns.
pub data Verdict (A : Type 0) : Type 0 where
  refuse : Option String → Verdict A
  unlock : Verdict A
  try_again : RpcError → Verdict A
  accept : Body A → Verdict A

-- `response.json()`
unfoldable pub read_json : {A : Type 0} → Body A → Verdict A
read_json unreadable = try_again not_json
read_json (object d) = accept (object d)
read_json (other_value v) = accept (other_value v)

unfoldable pub judge_reply : {A : Type 0} → Reply A → Verdict A
unfolding is_auth_failure error_message read_json
judge_reply r =
    if r.status_code == 401
    then if is_auth_failure r then unlock else refuse (error_message r.body)
    else if r.status_code == 409
    then try_again conflict
    else if leb 400 r.status_code
    then try_again (http_status r.status_code)
    else read_json r.body

-- The body of the `try` up to its `raise`, `continue` or `return`.
unfoldable pub judge : {A : Type 0} → Exchange A → Verdict A
unfolding judge_reply
judge lost = try_again transport
judge (replied r) = judge_reply r

-- An exception in an attempt: raised by the last one, otherwise the next attempt is made.
unfoldable pub fail_attempt :
    {A S : Type 0} → RpcError → ℕ → (S → Result RpcError A × S) → S → Result RpcError A × S
fail_attempt e zero next s = (err e, s)
fail_attempt e (suc left) next s = next s

is_service_state : RpcError → Bool
is_service_state (service_state _) = true
is_service_state _ = false

-- `self.unlock_wallet()`, then `continue`: a state error of the unlocking is raised at once.
unfoldable pub after_unlock :
    {A S : Type 0}
    → Result RpcError (Unit {0}) × S
    → ℕ
    → (S → Result RpcError A × S)
    → Result RpcError A × S
unfolding fail_attempt is_service_state
after_unlock (ok _, s) left next = next s
after_unlock (err e, s) left next =
    if is_service_state e then (err e, s) else fail_attempt e left next s

module _ {A S : Type 0} (request : S → Exchange A × S)
    (unlocks : S → Result RpcError (Unit {0}) × S) where
  unfoldable pub act :
      Verdict A → ℕ → (S → Result RpcError (Body A) × S) → S → Result RpcError (Body A) × S
  unfolding after_unlock fail_attempt
  act (refuse m) left next s = (err (service_state m), s)
  act unlock left next s = after_unlock (unlocks s) left next
  act (try_again e) left next s = fail_attempt e left next s
  act (accept b) left next s = (ok b, s)

  -- `for attempt in range(repeat)`, by the number of attempts that are left.
  unfoldable pub attempts : ℕ → S → Result RpcError (Body A) × S
  unfolding act judge
  attempts zero s = (err stayed_unauthorized, s)
  attempts (suc left) s = let (x, s1) = request s in act (judge x) left (attempts left) s1

-- The client and the server: the client's token, the token that the call at hand sends, the requests
-- that were made, and the server's side.
pub record Link (W : Type 0) : Type 0 where
  pub bearer : String
  pub header : String
  pub posts : ℕ
  pub server : W

-- The server: what it answers to a request with a token, and what it is then.
abbrev pub Server : Type 0 → Type 0 → Type 0 → Type 0
Server Q A W = Q → String → W → Exchange A × W

-- `unlock_wallet` reads the tokens of its answer, which raises for a value that is no object.
unfoldable pub store_token :
    {A W : Type 0} → Result RpcError (Body A) × Link W → Result RpcError (Unit {0}) × Link W
store_token (ok (object d), s) = (ok tt, record s { bearer = or_default d.token "" })
store_token (ok _, s) = (err not_json, s)
store_token (err e, s) = (err e, s)

-- The header of the call that unlocked: the new token, or still the old one when the unlocking raised.
unfoldable pub renew_header :
    {W : Type 0}
    → String
    → Result RpcError (Unit {0}) × Link W
    → Result RpcError (Unit {0}) × Link W
renew_header old (ok _, s) = (ok tt, record s { header = s.bearer })
renew_header old (err e, s) = (err e, record s { header = old })

module _ {Q A W : Type 0} (serve : Server Q A W) (unlock_request : Q) where
  -- `requests.request`
  unfoldable pub send : Q → Link W → Exchange A × Link W
  send q s =
      let (x, w) = serve q s.header s.server in (x, record s { posts = s.posts + 1; server = w })

  -- `_rpc`, as deep as the stack is: `unlock_wallet` is itself a call, with the default of four attempts.
  unfoldable pub rpc : (depth repeat : ℕ) → Q → Link W → Result RpcError (Body A) × Link W
  unfolding attempts send store_token renew_header
  rpc zero repeat q s = (err too_deep, s)
  rpc (suc depth) repeat q s =
      attempts (send q) (λ u. renew_header u.header (store_token (rpc depth 4 unlock_request u)))
        repeat (record s { header = s.bearer })
