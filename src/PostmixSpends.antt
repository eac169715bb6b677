-- ===== src/PostmixSpends.antt =====
-- manager/engine/postmix_spends.py: the scheduled spends of mixed coins. Wallets and the funding node
-- are parameters: each call takes the world as it is and returns or raises, and leaves a world. Times
-- are whole seconds, and an error is its text.
pub mod Outcomes
pub mod History
pub mod Indices
mod Examples
use coinjoin_emulator.Base.{
  ℕ, ◌+◌, Bool, true, false, not, ◌&&◌, String, Option, none, some, List, [], ◌∷◌, ◌++◌, map, leb,
  get_elem?, if◌then◌else◌, Result, ok, err, or_default,
}

-- `PostmixSpendConfig`
pub record PostmixSpendConfig : Type 0 where
  pub config_value : Option ℕ
  pub config_all : Bool
  pub config_delay_blocks : Option ℕ
  pub config_delay_rounds : Option ℕ
  pub config_min_anon_score : Option ℕ
  pub config_coin_selection : String

pub data SpendStatus : Type 0 where
  not_due failed sent : SpendStatus

-- What a wallet describes of its payment.
pub record Payout : Type 0 where
  pub txid : String
  pub amount_sats : ℕ

-- The payment as it is kept: with its destination, and the round and the block of the update.
pub record SentRecord : Type 0 where
  pub payout : Payout
  pub destination : String
  pub sent_round : ℕ
  pub sent_block : ℕ

pub record PostmixSpend : Type 0 where
  pub wallet : String
  pub wallet_index : ℕ
  pub value : Option ℕ
  pub all : Bool
  pub delay_blocks : ℕ
  pub delay_rounds : ℕ
  pub min_anon_score : Option ℕ
  pub coin_selection : String
  pub status : SpendStatus
  pub attempts : ℕ
  pub last_error : Option String
  pub next_attempt_at : ℕ
  pub payment : Option SentRecord

-- POSTMIX_RETRY_SECONDS
abbrev pub postmix_retry_seconds : ℕ
postmix_retry_seconds = 30

-- `PostmixSpend.from_config`
unfoldable pub from_config : String → ℕ → PostmixSpendConfig → PostmixSpend
from_config wallet index config = record {
  wallet = wallet;
  wallet_index = index;
  value = config.config_value;
  all = config.config_all;
  delay_blocks = or_default config.config_delay_blocks 0;
  delay_rounds = or_default config.config_delay_rounds 0;
  min_anon_score = config.config_min_anon_score;
  coin_selection = config.config_coin_selection;
  status = SpendStatus.not_due;
  attempts = 0;
  last_error = none;
  next_attempt_at = 0;
  payment = none;
}

unfoldable pub is_sent : SpendStatus → Bool
is_sent SpendStatus.sent = true
is_sent _ = false

-- `due`, at a time.
unfoldable pub due : PostmixSpend → ℕ → ℕ → ℕ → Bool
unfolding is_sent
due s block round now =
    not (is_sent s.status)
    && (leb s.delay_blocks block && (leb s.delay_rounds round && leb s.next_attempt_at now))

-- `mark_failed`, at a time.
unfoldable pub mark_failed : String → ℕ → PostmixSpend → PostmixSpend
mark_failed error now s = record s {
  status = SpendStatus.failed;
  last_error = some error;
  next_attempt_at = now + postmix_retry_seconds;
}

-- `mark_sent`
unfoldable pub mark_sent : SentRecord → PostmixSpend → PostmixSpend
mark_sent r s = record s { status = SpendStatus.sent; last_error = none; payment = some r }

-- A call that may raise, over the world.
abbrev pub Call : Type 0 → Type 0 → Type 0
Call W A = W → Result String A × W

abbrev pub then_call : {W A B : Type 0} → Result String A × W → (A → Call W B) → Result String B × W
then_call (ok a, w) next = next a w
then_call (err e, w) next = (err e, w)

-- `SpendingClient`; the node's `is_unspent`, which the calls are given, is part of the world.
pub record SpendingClient (W : Type 0) : Type 0 where
  pub name : String
  pub check_mixed_coins : Option ℕ → Option ℕ → Call W (Unit {0})
  pub stop_coinjoin : Call W (Unit {0})
  pub send_mixed_coins : String → Option ℕ → Option ℕ → String → Call W Payout

-- `FundingNode`, with the clock.
pub record FundingNode (W : Type 0) : Type 0 where
  pub get_new_address : Call W String
  pub time : W → ℕ

abbrev add_first :
    {W : Type 0} → PostmixSpend → Option (List PostmixSpend × W) → Option (List PostmixSpend × W)
add_first s none = none
add_first s (some (ss, w)) = some (s ∷ ss, w)

-- The rest of the loop, in the world that the first spend leaves.
abbrev then_rest :
    {W : Type 0}
    → Option (PostmixSpend × W)
    → (W → Option (List PostmixSpend × W))
    → Option (List PostmixSpend × W)
then_rest none rest = none
then_rest (some (s, w)) rest = add_first s (rest w)

module _ {W : Type 0} (node : FundingNode W) where
  -- `value = None if spend.all else spend.value`
  unfoldable pub requested : PostmixSpend → Option ℕ
  requested s = if s.all then none else s.value

  -- `_pay_out`: check, stop, address, payment; the first call that raises ends it.
  unfoldable pub pay_out : SpendingClient W → PostmixSpend → Call W (Payout × String)
  unfolding requested
  pay_out client s w =
      then_call (client.check_mixed_coins (requested s) s.min_anon_score w) (λ _ w1.
        then_call (client.stop_coinjoin w1) (λ _ w2.
          then_call (node.get_new_address w2) (λ destination w3.
            then_call
              (client.send_mixed_coins destination (requested s) s.min_anon_score s.coin_selection
                w3)
              (λ paid w4. (ok (paid, destination), w4)))))

  -- The outcome of an attempt, recorded at the time that the attempt has taken until.
  unfoldable pub record_outcome :
      ℕ → ℕ → PostmixSpend → Result String (Payout × String) × W → PostmixSpend × W
  unfolding mark_failed mark_sent
  record_outcome block round s (err e, w) = (mark_failed e (node.time w) s, w)
  record_outcome block round s (ok (paid, destination), w) = (
    mark_sent
        (record {
          payout = paid;
          destination = destination;
          sent_round = round;
          sent_block = block;
        })
        s,
    w,
  )

  -- `_send`
  unfoldable pub send_spend : SpendingClient W → ℕ → ℕ → PostmixSpend → W → PostmixSpend × W
  unfolding pay_out record_outcome
  send_spend client block round s w =
      let counted = record s { attempts = s.attempts + 1 } in
      record_outcome block round counted (pay_out client counted w)

  -- `self.clients[spend.wallet_index]`, which raises past the last client.
  unfoldable pub send_by :
      Option (SpendingClient W) → ℕ → ℕ → PostmixSpend → W → Option (PostmixSpend × W)
  unfolding send_spend
  send_by none block round s w = none
  send_by (some client) block round s w = some (send_spend client block round s w)

  -- One spend of the loop of `update`.
  unfoldable pub update_spend :
      List (SpendingClient W) → ℕ → ℕ → PostmixSpend → W → Option (PostmixSpend × W)
  unfolding send_by due
  update_spend clients block round s w =
      if due s block round (node.time w)
      then send_by (get_elem? clients s.wallet_index) block round s w
      else some (s, w)

  -- `update`: the spends in order, each in the world that the one before leaves; nothing comes back
  -- from an index out of range.
  unfoldable pub update_all :
      List (SpendingClient W) → ℕ → ℕ → List PostmixSpend → W → Option (List PostmixSpend × W)
  unfolding update_spend
  update_all clients block round [] w = some ([], w)
  update_all clients block round (s ∷ ss) w =
      then_rest (update_spend clients block round s w) (update_all clients block round ss)

-- `enumerate(zip(clients, wallets))` from an index on, with the spends of each wallet.
unfoldable pub schedule_from : ℕ → List String → List (List PostmixSpendConfig) → List PostmixSpend
unfolding from_config
schedule_from i [] wallets = []
schedule_from i (n ∷ ns) [] = []
schedule_from i (n ∷ ns) (w ∷ ws) = map (from_config n i) w ++ schedule_from (i + 1) ns ws
