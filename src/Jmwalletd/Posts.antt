-- ===== src/Jmwalletd/Posts.antt =====
-- How many requests a call of jmwalletd makes: an unlocking in an attempt is a call too.
use coinjoin_emulator.Base.{
  ℕ, zero, suc, ◌+◌, ◌*◌, ◌≤◌, ◌≡◌, refl, sym, ◌∙◌, ap, subst, arith, Result, ok, err, String,
}
use coinjoin_emulator.Jmwalletd.{
  Exchange, RpcError, too_deep, Body, object, unreadable, other_value, Verdict, refuse, unlock,
  try_again, accept, judge, act, attempts, fail_attempt, after_unlock, Link, Server, store_token,
  renew_header, send, rpc,
}

-- The requests of one call at a depth of the stack, if each attempt unlocks.
abbrev pub most_posts : (depth repeat : ℕ) → ℕ
most_posts zero repeat = 0
most_posts (suc depth) repeat = repeat * (1 + most_posts depth 4)

posts-store_token :
    {A W : Type 0} (out : Result RpcError (Body A) × Link W)
    → (store_token out).1.posts ≡ out.1.posts
unfolding store_token
posts-store_token (ok unreadable, s) = refl
posts-store_token (ok (object d), s) = refl
posts-store_token (ok (other_value v), s) = refl
posts-store_token (err e, s) = refl

posts-renew_header :
    {W : Type 0} (old : String) (out : Result RpcError (Unit {0}) × Link W)
    → (renew_header old out).1.posts ≡ out.1.posts
unfolding renew_header
posts-renew_header old (ok _, s) = refl
posts-renew_header old (err e, s) = refl

err-renew_header :
    {W : Type 0} (old : String) (e : RpcError) (out : Result RpcError (Unit {0}) × Link W)
    → out.0 ≡ err e
    → (renew_header old out).0 ≡ err e
unfolding renew_header
err-renew_header old e (ok _, s) h = absurd (cc h)
err-renew_header old e (err x, s) h = cc h

err-store_token :
    {A W : Type 0} (e : RpcError) (out : Result RpcError (Body A) × Link W)
    → out.0 ≡ err e
    → (store_token out).0 ≡ err e
unfolding store_token
err-store_token e (ok b, s) h = absurd (cc h)
err-store_token e (err x, s) h = cc h

posts-fail_attempt :
    {A W : Type 0} (e : RpcError) (left bound : ℕ) (next : Link W → Result RpcError A × Link W)
    (s : Link W)
    → (next s).1.posts ≤ s.posts + bound
    → (fail_attempt e left next s).1.posts ≤ s.posts + bound
unfolding fail_attempt
posts-fail_attempt e zero bound next s h = omega arith
posts-fail_attempt e (suc left) bound next s h = h

posts-after_unlock :
    {A W : Type 0} (out : Result RpcError (Unit {0}) × Link W) (left bound : ℕ)
    (next : Link W → Result RpcError A × Link W)
    → ((s : Link W) → (next s).1.posts ≤ s.posts + bound)
    → (after_unlock out left next).1.posts ≤ out.1.posts + bound
unfolding after_unlock
posts-after_unlock (ok _, s) left bound next h = h s
posts-after_unlock (err e, s) left bound next h =
    ground (arith, posts-fail_attempt e left bound next s (h s))

module _ {A W : Type 0} (request : Link W → Exchange A × Link W)
    (unlocks : Link W → Result RpcError (Unit {0}) × Link W) (cost : ℕ) where
  posts-act :
      (v : Verdict A) (left bound : ℕ) (next : Link W → Result RpcError (Body A) × Link W)
      (s : Link W)
      → ((t : Link W) → (unlocks t).1.posts ≤ t.posts + cost)
      → ((t : Link W) → (next t).1.posts ≤ t.posts + bound)
      → (act request unlocks v left next s).1.posts ≤ s.posts + cost + bound
  unfolding act
  posts-act (refuse m) left bound next s u h = omega arith
  posts-act unlock left bound next s u h =
      let after = posts-after_unlock (unlocks s) left bound next h in omega (arith, after, u s)
  posts-act (try_again e) left bound next s u h =
      let after = posts-fail_attempt e left bound next s (h s) in omega (arith, after)
  posts-act (accept b) left bound next s u h = omega arith

  posts-attempts :
      (n : ℕ) (s : Link W)
      → ((t : Link W) → (request t).1.posts ≡ t.posts + 1)
      → ((t : Link W) → (unlocks t).1.posts ≤ t.posts + cost)
      → (attempts request unlocks n s).1.posts ≤ s.posts + n * (1 + cost)
  unfolding attempts
  posts-attempts zero s r u = omega arith
  posts-attempts (suc n) s r u =
      let after =
        posts-act (judge (request s).0) n (n * (1 + cost)) (attempts request unlocks n)
          (request s).1 u (λ t. posts-attempts n t r u) in
      omega (arith, after, r s)

module _ {Q A W : Type 0} (serve : Server Q A W) (unlock_request : Q) where
  posts-send : (q : Q) (s : Link W) → (send serve unlock_request q s).1.posts ≡ s.posts + 1
  unfolding send
  posts-send q s = refl

  -- Whatever the server answers, a call makes no more requests than its attempts and their
  -- unlockings can.
  pub posts-rpc :
      (depth repeat : ℕ) (q : Q) (s : Link W)
      → (rpc serve unlock_request depth repeat q s).1.posts ≤ s.posts + most_posts depth repeat
  unfolding rpc
  posts-rpc zero repeat q s = omega arith
  posts-rpc (suc depth) repeat q s =
      posts-attempts (send serve unlock_request q)
        (λ u.
          renew_header u.header (store_token (rpc serve unlock_request depth 4 unlock_request u)))
        (most_posts depth 4) repeat (record s { header = s.bearer }) (posts-send q)
        (λ t. omega (
          arith,
          posts-renew_header t.header
              (store_token (rpc serve unlock_request depth 4 unlock_request t)),
          posts-store_token (rpc serve unlock_request depth 4 unlock_request t),
          posts-rpc depth 4 unlock_request t,
        ))

-- A failed attempt of a call whose unlocking is too deep: what the last one raises, and the next
-- attempts' requests.
abbrev Exhausts : {A W : Type 0} → Result RpcError A × Link W → ℕ → Type 0
Exhausts out n = (out.0 ≡ err too_deep) × (out.1.posts ≡ n)

err-inj : {E A : Type 0} {x y : E} → ◌≡◌ {A = Result E A} (err x) (err y) → x ≡ y
err-inj h = cc h

deep-after_unlock :
    {A W : Type 0} (out : Result RpcError (Unit {0}) × Link W) (left n : ℕ)
    (next : Link W → Result RpcError A × Link W)
    → out.0 ≡ err too_deep
    → ((t : Link W) → Exhausts (next t) (t.posts + n))
    → Exhausts (after_unlock out (suc left) next) (out.1.posts + n)
unfolding after_unlock fail_attempt
deep-after_unlock (ok _, s) left n next d h = absurd (cc d)
deep-after_unlock (err e, s) left n next d h =
    subst (λ x. Exhausts (after_unlock (err x, s) (suc left) next) (s.posts + n)) (sym (err-inj d))
      (h s)

last-after_unlock :
    {A W : Type 0} (out : Result RpcError (Unit {0}) × Link W)
    (next : Link W → Result RpcError A × Link W)
    → out.0 ≡ err too_deep
    → Exhausts (after_unlock out 0 next) out.1.posts
unfolding after_unlock fail_attempt
last-after_unlock (ok _, s) next d = absurd (cc d)
last-after_unlock (err e, s) next d =
    subst (λ x. Exhausts (after_unlock (err x, s) 0 next) s.posts) (sym (err-inj d)) (refl, refl)

module _ {A W : Type 0} (request : Link W → Exchange A × Link W)
    (unlocks : Link W → Result RpcError (Unit {0}) × Link W) (cost : ℕ) where
  deep-act-unlock :
      (v : Verdict A) (left : ℕ) (next : Link W → Result RpcError (Body A) × Link W) (s : Link W)
      → v ≡ unlock
      → act request unlocks v left next s ≡ after_unlock (unlocks s) left next
  unfolding act
  deep-act-unlock v left next s h = ap (λ u. act request unlocks u left next s) h

  deep-attempts :
      (n : ℕ) (s : Link W)
      → ((t : Link W) → judge (request t).0 ≡ unlock)
      → ((t : Link W) → (request t).1.posts ≡ t.posts + 1)
      → ((t : Link W) → Exhausts (unlocks t) (t.posts + cost))
      → Exhausts (attempts request unlocks (suc n) s) (s.posts + suc n * (1 + cost))
  unfolding attempts
  deep-attempts zero s v r u =
      let (raised, made) = u (request s).1 in
      let (last, stay) =
        last-after_unlock (unlocks (request s).1) (attempts request unlocks 0) raised in
      let same =
        deep-act-unlock (judge (request s).0) 0 (attempts request unlocks 0) (request s).1 (v s) in
      (ap (λ o. o.0) same ∙ last, ap (λ o. o.1.posts) same ∙ (omega (arith, stay, made, r s)))
  deep-attempts (suc n) s v r u =
      let (raised, made) = u (request s).1 in
      let rest = attempts request unlocks (suc n) in
      let (last, all) =
        deep-after_unlock (unlocks (request s).1) n (suc n * (1 + cost)) rest raised
          (λ t. deep-attempts n t v r u) in
      let same = deep-act-unlock (judge (request s).0) (suc n) rest (request s).1 (v s) in
      (ap (λ o. o.0) same ∙ last, ap (λ o. o.1.posts) same ∙ (omega (arith, all, made, r s)))

module _ {Q A W : Type 0} (serve : Server Q A W) (unlock_request : Q) where
  -- If the server refuses the credentials of every request, those of an unlocking too, each attempt
  -- unlocks anew: the call fails by the depth of the stack alone, after as many requests as that
  -- admits.
  pub rpc-all_unauthorized :
      (depth left : ℕ) (q : Q) (s : Link W)
      → ((p : Q) (t : Link W) → judge (send serve unlock_request p t).0 ≡ unlock)
      → ((rpc serve unlock_request depth (suc left) q s).0 ≡ err too_deep)
        × ((rpc serve unlock_request depth (suc left) q s).1.posts
            ≡ s.posts + most_posts depth (suc left))
  unfolding rpc
  rpc-all_unauthorized zero left q s v = (refl, omega arith)
  rpc-all_unauthorized (suc depth) left q s v =
      let inner = rpc serve unlock_request depth 4 unlock_request in
      deep-attempts (send serve unlock_request q)
        (λ u. renew_header u.header (store_token (inner u))) (most_posts depth 4) left
        (record s { header = s.bearer }) (v q) (posts-send serve unlock_request q)
        (λ t.
          let (raised, made) = rpc-all_unauthorized depth 3 unlock_request t v in
          (
            err-renew_header t.header too_deep (store_token (inner t))
                (err-store_token too_deep (inner t) raised),
            posts-renew_header t.header (store_token (inner t))
                ∙ posts-store_token (inner t)
                ∙ made,
          ))
