-- ===== src/PostmixSpends/History.antt =====
-- The schedule over any sequence of updates: with whatever wallets and worlds, a spend that was sent
-- stays as it is.
use coinjoin_emulator.Base.{
  ℕ, zero, suc, ◌≡◌, refl, ◌∙◌, ap, sym, Option, none, some, List, [], ◌∷◌, get_elem?, some-inj,
}
use coinjoin_emulator.PostmixSpends.{
  SpendStatus, PostmixSpend, SpendingClient, FundingNode, update_spend, update_all, add_first,
  then_rest,
}
use coinjoin_emulator.PostmixSpends.Outcomes.{due-sent, update_spend_not_due}

module _ {W : Type 0} (node : FundingNode W) where
  -- One update by a record of its result.
  pub record Rest (clients : List (SpendingClient W)) (block round : ℕ) (s : PostmixSpend)
      (ss us : List PostmixSpend) (w : W) : Type 0 where
    pub first : PostmixSpend
    pub rest : List PostmixSpend
    pub between : W
    pub after : W
    pub shape : us ≡ first ∷ rest
    pub head_step : update_spend node clients block round s w ≡ some (first, between)
    pub tail_step : update_all node clients block round ss between ≡ some (rest, after)

  unfold_update :
      (clients : List (SpendingClient W)) (block round : ℕ) (s : PostmixSpend)
      (ss us : List PostmixSpend) (w v : W)
      → update_all node clients block round (s ∷ ss) w ≡ some (us, v)
      → Rest clients block round s ss us w
  unfolding update_all
  unfold_update clients block round s ss us w v h =
      go (update_spend node clients block round s w) refl h
    where
      tail :
          (x : PostmixSpend) (w1 : W)
          → update_spend node clients block round s w ≡ some (x, w1)
          → (r : Option (List PostmixSpend × W)) → update_all node clients block round ss w1 ≡ r
          → add_first x r ≡ some (us, v)
          → Rest clients block round s ss us w
      tail x w1 e none f h = absurd (cc h)
      tail x w1 e (some (xs, w2)) f h = record {
        first = x;
        rest = xs;
        between = w1;
        after = w2;
        shape = sym (ap (λ p. p.0) (some-inj h));
        head_step = e;
        tail_step = f;
      }

      go :
          (r : Option (PostmixSpend × W))
          → update_spend node clients block round s w ≡ r
          → then_rest r (update_all node clients block round ss) ≡ some (us, v)
          → Rest clients block round s ss us w
      go none e h = absurd (cc h)
      go (some (x, w1)) e h = tail x w1 e (update_all node clients block round ss w1) refl h

  -- Updates one after the other, each with its own wallets and in its own world.
  pub data Later (ss : List PostmixSpend) : List PostmixSpend → Type 0 where
    at_first : Later ss ss
    updated :
        {us vs : List PostmixSpend} (clients : List (SpendingClient W)) (block round : ℕ) (w v : W)
        → Later ss us
        → update_all node clients block round us w ≡ some (vs, v)
        → Later ss vs

  update_all-sent :
      (clients : List (SpendingClient W)) (block round i : ℕ) (ss us : List PostmixSpend)
      (s : PostmixSpend) (w v : W)
      → update_all node clients block round ss w ≡ some (us, v)
      → get_elem? ss i ≡ some s
      → s.status ≡ SpendStatus.sent
      → get_elem? us i ≡ some s
  update_all-sent clients block round i [] us s w v h at p = absurd (cc at)
  update_all-sent clients block round zero (x ∷ ss) us s w v h at p =
      let r = unfold_update clients block round x ss us w v h in
      let same : x ≡ s = cc at in
      let kept =
        update_spend_not_due node clients block round s w
          (due-sent node s block round (node.time w) p) in
      let first : r.first ≡ s =
        ap (λ q. q.0)
          (some-inj
            (sym r.head_step ∙ ap (λ y. update_spend node clients block round y w) same ∙ kept)) in
      ap (λ l. get_elem? l 0) r.shape ∙ ap some first
  update_all-sent clients block round (suc i) (x ∷ ss) us s w v h at p =
      let r = unfold_update clients block round x ss us w v h in
      ap (λ l. get_elem? l (suc i)) r.shape
      ∙ update_all-sent clients block round i ss r.rest s r.between r.after r.tail_step at p

  -- A spend that was sent is the same after any number of updates: its record, its attempts and its
  -- status do not change, so that no update pays it again.
  pub sent_stays :
      {ss us : List PostmixSpend} (i : ℕ) (s : PostmixSpend)
      → Later ss us
      → get_elem? ss i ≡ some s
      → s.status ≡ SpendStatus.sent
      → get_elem? us i ≡ some s
  sent_stays i s at_first at p = at
  sent_stays i s (updated {us = us} {vs = vs} clients block round w v before h) at p =
      update_all-sent clients block round i us vs s w v h (sent_stays i s before at p) p
