-- ===== src/PostmixSpends/Indices.antt =====
-- The loop never meets a spend without its wallet: the indices that the schedule is built with are in
-- range, and updates keep them.
use coinjoin_emulator.Base.{
  ℕ, zero, suc, ◌+◌, ◌≡◌, refl, ◌∙◌, ap, String, some, List, [], ◌∷◌, map, get_elem?, Result, ok,
  err, arith, inl, inr, Bool-cases, ◌≤◌, ◌<◌, All, All-append, length,
}
use coinjoin_emulator.PostmixSpends.{
  PostmixSpendConfig, Payout, PostmixSpend, from_config, due, mark_failed, mark_sent,
  SpendingClient, FundingNode, pay_out, record_outcome, send_spend, send_by, update_spend,
  update_all, add_first, then_rest, schedule_from,
}

abbrev pub InRange : ℕ → List PostmixSpend → Type 0
InRange n ss = All (λ s. s.wallet_index < n) ss

InRange-from_config :
    (n : String) (i bound : ℕ) (cs : List PostmixSpendConfig)
    → i < bound
    → InRange bound (map (from_config n i) cs)
unfolding from_config
InRange-from_config n i bound [] h = tt
InRange-from_config n i bound (c ∷ cs) h = (h, InRange-from_config n i bound cs h)

InRange-schedule_from :
    (i bound : ℕ) (ns : List String) (ws : List (List PostmixSpendConfig))
    → i + length ns ≤ bound
    → InRange bound (schedule_from i ns ws)
unfolding schedule_from
InRange-schedule_from i bound [] ws h = tt
InRange-schedule_from i bound (n ∷ ns) [] h = tt
InRange-schedule_from i bound (n ∷ ns) (w ∷ ws) h =
    All-append (λ (s : PostmixSpend). s.wallet_index < bound) (map (from_config n i) w)
      (schedule_from (i + 1) ns ws) (InRange-from_config n i bound w (omega arith))
      (InRange-schedule_from (i + 1) bound ns ws (omega arith))

get_elem-some :
    {A : Type 0} (xs : List A) (i : ℕ) → i < length xs → (x : A) × (get_elem? xs i ≡ some x)
get_elem-some [] i h = absurd (omega arith)
get_elem-some (x ∷ xs) zero h = (x, refl)
get_elem-some (x ∷ xs) (suc i) h = get_elem-some xs i (omega arith)

module _ {W : Type 0} (node : FundingNode W) where
  -- A spend updated with its wallet at hand, at the same index.
  abbrev Updates : List (SpendingClient W) → ℕ → ℕ → PostmixSpend → W → Type 0
  Updates clients block round s w =
      (u : PostmixSpend) × (v : W) × (update_spend node clients block round s w ≡ some (u, v))
      × (u.wallet_index ≡ s.wallet_index)

  index-record_outcome :
      (block round : ℕ) (s : PostmixSpend) (r : Result String (Payout × String) × W)
      → (record_outcome node block round s r).0.wallet_index ≡ s.wallet_index
  unfolding record_outcome mark_failed mark_sent
  index-record_outcome block round s (err e, w) = refl
  index-record_outcome block round s (ok (paid, d), w) = refl

  index-send_spend :
      (client : SpendingClient W) (block round : ℕ) (s : PostmixSpend) (w : W)
      → (send_spend node client block round s w).0.wallet_index ≡ s.wallet_index
  unfolding send_spend
  index-send_spend client block round s w =
      index-record_outcome block round (record s { attempts = s.attempts + 1 })
        (pay_out node client (record s { attempts = s.attempts + 1 }) w)

  update_spend_total :
      (clients : List (SpendingClient W)) (block round : ℕ) (s : PostmixSpend) (w : W)
      → s.wallet_index < length clients
      → Updates clients block round s w
  unfolding update_spend send_by
  update_spend_total clients block round s w h =
      elim (Bool-cases (due s block round (node.time w))) [
        | inl e ↦
            let (client, found) = get_elem-some clients s.wallet_index h in
            let sent = send_spend node client block round s w in
            (
              sent.0,
              sent.1,
              rw e (ap (λ c. send_by node c block round s w) found),
              index-send_spend client block round s w,
            )
        | inr e ↦ (s, w, rw e refl, refl)
      ]

  -- With every index in range an update returns, with as many spends, whose indices are in range
  -- again.
  pub update_all_total :
      (clients : List (SpendingClient W)) (block round : ℕ) (ss : List PostmixSpend) (w : W)
      → InRange (length clients) ss
      → (us : List PostmixSpend) × (v : W) × (update_all node clients block round ss w
          ≡ some (us, v))
        × InRange (length clients) us
        × (length us ≡ length ss)
  unfolding update_all
  update_all_total clients block round [] w h = ([], w, refl, tt, refl)
  update_all_total clients block round (s ∷ ss) w h =
      let (u, v, e, i) = update_spend_total clients block round s w h.0 in
      let (us, x, f, hs, n) = update_all_total clients block round ss v h.1 in
      (
        u ∷ us,
        x,
        ap (λ r. then_rest r (update_all node clients block round ss)) e ∙ ap (add_first u) f,
        (omega (arith, i, h.0), hs),
        ap suc n,
      )

  -- The first update of a schedule built for the clients' names returns.
  pub update_all-schedule_from :
      (clients : List (SpendingClient W)) (wallets : List (List PostmixSpendConfig))
      (block round : ℕ) (w : W)
      → let ss = schedule_from 0 (map (λ c. c.name) clients) wallets in
        (us : List PostmixSpend) × (v : W) × (update_all node clients block round ss w
          ≡ some (us, v))
        × InRange (length clients) us
        × (length us ≡ length ss)
  update_all-schedule_from clients wallets block round w =
      update_all_total clients block round (schedule_from 0 (map (λ c. c.name) clients) wallets) w (
        InRange-schedule_from 0 (length clients) (map (λ c. c.name) clients) wallets
          (omega (arith, length-names clients)))
    where
      length-names : (cs : List (SpendingClient W)) → length (map (λ c. c.name) cs) ≡ length cs
      length-names [] = refl
      length-names (c ∷ cs) = ap suc (length-names cs)
