-- ===== src/PostmixSpends/Examples.antt =====
-- A wallet that is short of mixed coins at the first update and pays at the second. The world counts
-- the calls, and its time is 100 seconds for each.
use coinjoin_emulator.Base.{
  ℕ, zero, suc, ◌+◌, ◌*◌, ◌≡◌, refl, false, String, Option, none, some, List, [], ◌∷◌, map,
  get_elem?, Result, ok, err,
}
use coinjoin_emulator.PostmixSpends.{
  PostmixSpendConfig, SpendStatus, PostmixSpend, SpendingClient, FundingNode, send_spend,
  update_all, from_config, schedule_from,
}
use coinjoin_emulator.PostmixSpends.History.{Later, sent_stays}

abbrev node : FundingNode ℕ
node = record { get_new_address = λ w. (ok "bcrt1q", w + 1); time = λ w. w * 100 }

abbrev covers : ℕ → Result String (Unit {0})
covers zero = err "short of mixed coins"
covers (suc _) = ok tt

abbrev client : SpendingClient ℕ
client = record {
  name = "jcs-000";
  check_mixed_coins = λ value least w. (covers w, w + 1);
  stop_coinjoin = λ w. (ok tt, w + 1);
  send_mixed_coins =
      λ to value least selection w. (ok (record { txid = "t"; amount_sats = 7 }), w + 1);
}

abbrev config : PostmixSpendConfig
config = record {
  config_value = some 5;
  config_all = false;
  config_delay_blocks = none;
  config_delay_rounds = none;
  config_min_anon_score = none;
  config_coin_selection = "amount";
}

abbrev spends : List PostmixSpend
spends = schedule_from 0 ("jcs-000" ∷ []) ((config ∷ []) ∷ [])

abbrev statuses : Option (List PostmixSpend × ℕ) → List SpendStatus
statuses none = []
statuses (some (ss, w)) = map (λ s. s.status) ss

short_first : statuses (update_all node (client ∷ []) 1 0 spends 0) ≡ SpendStatus.failed ∷ []
unfolding update_all schedule_from
short_first = refl

then_paid : statuses (update_all node (client ∷ []) 1 0 spends 1) ≡ SpendStatus.sent ∷ []
unfolding update_all schedule_from
then_paid = refl

abbrev spend : PostmixSpend
spend = from_config "jcs-000" 0 config

abbrev paid : PostmixSpend
paid = (send_spend node client 1 0 spend 1).0

sent_stays_example : get_elem? (paid ∷ []) 0 ≡ some paid
unfolding send_spend update_all
sent_stays_example =
    sent_stays node {ss = paid ∷ []} {us = paid ∷ []} 0 paid
      (Later.updated (client ∷ []) 3 0 9 9 Later.at_first refl) refl refl
