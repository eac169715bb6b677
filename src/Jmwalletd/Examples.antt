-- ===== src/Jmwalletd/Examples.antt =====
-- A server that answers a conflict and then a token, one that refuses all credentials, and a wallet
-- that is never created.
use coinjoin_emulator.Base.{
  ℕ, ◌+◌, ◌≤◌, ◌≡◌, refl, Bool, false, String, Option, none, some, ◌==◌, if◌then◌else◌, Result, ok,
  err, arith,
}
use coinjoin_emulator.Jmwalletd.{
  Body, object, Reply, replied, RpcError, conflict, too_deep, judge, attempts, Link, Server, send,
  rpc,
}
use coinjoin_emulator.Jmwalletd.Attempts.{Retried, attempts-final}
use coinjoin_emulator.Jmwalletd.Posts.{most_posts, posts-rpc, rpc-all_unauthorized}
use coinjoin_emulator.Jmwalletd.Waiting.{Clock, Step, wait_wallet}
use coinjoin_emulator.Jmwalletd.Waiting.Deadline.{IsClock, wait_wallet-ends}

abbrev answer_of : ℕ → Option String → Reply ℕ
answer_of status message = record {
  status_code = status;
  has_challenge = false;
  body = object (record { message = message; token = some "t"; content = 7 });
}

-- A request is a path here.
abbrev busy_once : Server String ℕ ℕ
busy_once q token n = (replied (if n == 0 then answer_of 409 none else answer_of 200 none), n + 1)

abbrev no_login : Server String ℕ ℕ
no_login q token n = (replied (answer_of 401 (some "Invalid credentials.")), n + 1)

abbrev link : Link ℕ
link = record { bearer = ""; header = ""; posts = 0; server = 0 }

abbrev no_unlock : Link ℕ → Result RpcError (Unit {0}) × Link ℕ
no_unlock s = (ok tt, s)

abbrev second_answer : Result RpcError (Body ℕ)
second_answer = ok (object (record { message = none; token = some "t"; content = 7 }))

attempts-final_example :
    attempts (send busy_once "/unlock" "/session") no_unlock 4 link
    ≡ (second_answer, record { bearer = ""; header = ""; posts = 2; server = 2 })
unfolding send judge
attempts-final_example =
    attempts-final (send busy_once "/unlock" "/session") no_unlock 4 second_answer
      (Retried.one_more {s = link} conflict refl (Retried.no_request _)) (omega arith) refl

posts-rpc_example : (rpc no_login "/unlock" 2 4 "/session" link).1.posts ≤ 0 + most_posts 2 4
posts-rpc_example = posts-rpc no_login "/unlock" 2 4 "/session" link

-- Three levels of the stack make 84 requests.
rpc-all_unauthorized_example :
    ((rpc no_login "/unlock" 3 4 "/session" link).0 ≡ err too_deep)
    × ((rpc no_login "/unlock" 3 4 "/session" link).1.posts ≡ 84)
unfolding send judge
rpc-all_unauthorized_example =
    rpc-all_unauthorized no_login "/unlock" 3 3 "/session" link (λ p t. refl)

abbrev clock : Clock ℕ
clock = record { time = λ now. now; sleep = λ d now. now + d }

abbrev fails : Step String ℕ
fails now = (err "refused", now)

abbrev clock-IsClock : IsClock clock fails
clock-IsClock = record { slept = λ d s. omega arith; went_on = λ s. omega arith }

wait_wallet-ends_example : (r : Bool × ℕ) × (wait_wallet clock fails fails 60000 5 ≡ some r)
wait_wallet-ends_example = wait_wallet-ends clock fails fails 60000 5 clock-IsClock clock-IsClock
