-- ===== src/Startup/Complete.antt =====
-- A startup that returns has a client for every wallet, started from it.
use coinjoin_emulator.Base.{
  ℕ, zero, suc, ◌+◌, subst, ◌≡◌, refl, ◌∙◌, ap, sym, Option, none, some, List, [], ◌∷◌, ◌++◌, map,
  length, length-append, length-drop, take-append-drop, take, drop, ◌≤◌, Result, ok, err, arith,
}
use coinjoin_emulator.Startup.Slots.{
  IsStartOf, Slots, IsHere-number_wallets, IsSound-start_classified_wallets, Slots-put_clients,
  Slots-nothing_yet, Slots-retry_loop,
}
use coinjoin_emulator.Startup.{
  StartupWallet, ClientPool, add_started, extend_clients, start_each, start_batches,
  fidelity_batch_size, start_classified_wallets, put_clients, retry_loop, all_started, nothing_yet,
  number_wallets, start_clients,
}

module _ {V C W : Type 0} (pool : ClientPool V C W) where
  length-start_each :
      (vs : List (ℕ × StartupWallet V)) (w : W) → length (start_each pool vs w).0 ≡ length vs
  unfolding start_each
  length-start_each [] w = refl
  length-start_each ((i, v) ∷ vs) w = ap suc (length-start_each vs (pool.start_client i v w).1)

  -- A client for each wallet, started from it under its index.
  abbrev pub StartedAs : ℕ → List (StartupWallet V) → List C → Type 0
  StartedAs i [] [] = Unit
  StartedAs i (v ∷ vs) (c ∷ cs) = IsStartOf pool i v c × StartedAs (i + 1) vs cs
  StartedAs i _ _ = ⊥

  -- With fuel for each wallet the batches start them all.
  pub length-start_batches :
      (fuel : ℕ) (vs : List (ℕ × StartupWallet V)) (w : W)
      → length vs ≤ fuel
      → length (start_batches pool fuel vs w).0 ≡ length vs
  unfolding start_batches
  length-start_batches zero [] w h = refl
  length-start_batches (suc fuel) [] w h = refl
  length-start_batches zero (v ∷ vs) w h = absurd (omega arith)
  length-start_batches (suc fuel) (v ∷ vs) w h =
      let batch = take fidelity_batch_size (v ∷ vs) in
      let left = drop fidelity_batch_size (v ∷ vs) in
      let first = start_each pool batch w in
      let rest = start_batches pool fuel left first.1 in
      length-append first.0 rest.0
      ∙ (omega (
        arith,
        length-start_each batch w,
        length-start_batches fuel left first.1
            (omega (arith, length-drop fidelity_batch_size (v ∷ vs), h)),
        sym (length-append batch left),
        ap length (take-append-drop fidelity_batch_size (v ∷ vs)),
      ))

  add_started-ok :
      (c : C) (r : Result ℕ (List C)) (ds : List C)
      → add_started c r ≡ ok ds
      → (es : List C) × (r ≡ ok es) × (ds ≡ c ∷ es)
  add_started-ok c (ok es) ds h = (es, refl, cc h)
  add_started-ok c (err n) ds h = absurd (cc h)

  all_started-ok :
      (cs : List (Option C)) (ds : List C) → all_started pool cs ≡ ok ds → cs ≡ map (λ d. some d) ds
  unfolding all_started
  all_started-ok [] [] h = refl
  all_started-ok [] (d ∷ ds) h = absurd (cc h)
  all_started-ok (none ∷ cs) ds h = absurd (cc h)
  all_started-ok (some c ∷ cs) ds h =
      let (es, r, same) = add_started-ok c (all_started pool cs) ds h in
      ap (λ l. some c ∷ l) (all_started-ok cs es r) ∙ ap (map (λ d. some d)) (sym same)

  StartedAs-some :
      (i : ℕ) (vs : List (StartupWallet V)) (ds : List C)
      → Slots pool i vs (map (λ d. some d) ds)
      → StartedAs i vs ds
  StartedAs-some i [] [] h = tt
  StartedAs-some i (v ∷ vs) [] h = h
  StartedAs-some i [] (d ∷ ds) h = h
  StartedAs-some i (v ∷ vs) (d ∷ ds) h = (h.0, StartedAs-some (i + 1) vs ds h.1)

  extend-ok :
      (old all : List C) (r : Result ℕ (List C))
      → extend_clients old r ≡ ok all
      → (new : List C) × (r ≡ ok new) × (all ≡ old ++ new)
  extend-ok old all (ok new) h = (new, refl, cc h)
  extend-ok old all (err n) h = absurd (cc h)

  -- If the startup returns, the clients are those of before, followed by one client for each wallet, which
  -- was started from that wallet under the wallet's index.
  pub start_clients_complete :
      (clients all : List C) (vs : List (StartupWallet V)) (w : W)
      → (start_clients pool clients vs w).0 ≡ ok all
      → (new : List C) × (all ≡ clients ++ new) × StartedAs (length clients) vs new
  unfolding start_clients
  start_clients_complete clients all vs w h =
      let base = length clients in
      let started = start_classified_wallets pool (number_wallets pool base vs) w in
      let placed = put_clients pool base started.0 (nothing_yet pool vs) in
      let loop = retry_loop pool 3 base vs placed started.1 in
      let (new, ready, same) = extend-ok clients all (all_started pool loop.0) h in
      (
        new,
        same,
        StartedAs-some base vs new (
            subst (Slots pool base vs) (all_started-ok loop.0 new ready) (
              Slots-retry_loop pool 3 base vs placed started.1 (
                Slots-put_clients pool base vs started.0 (nothing_yet pool vs)
                  (IsSound-start_classified_wallets pool base vs (number_wallets pool base vs) w
                    (IsHere-number_wallets pool base vs))
                  (Slots-nothing_yet pool base vs)))),
      )
