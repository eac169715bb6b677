-- ===== src/Mixdepths/Examples.antt =====
-- A wallet with two mixdepths, and a jmwalletd whose world is the flag of every coin.
use coinjoin_emulator.Base.{
  ℕ, ◌≡◌, refl, Bool, false, String, none, some, List, [], ◌∷◌, if◌then◌else◌, ok, err, true,
  eq_iff, arith,
}
use coinjoin_emulator.Mixdepths.{JoinMarketCoin, Depths, select}
use coinjoin_emulator.Mixdepths.Grouped.{Separate, select-Separate}
use coinjoin_emulator.Mixdepths.Sweep.{
  Outpoint, same_outpoint, JoinMarketWallet, freeze_each, to_freeze, sweep,
}
use coinjoin_emulator.Mixdepths.Thawed.{Documented, sweep-frozen}

abbrev coin : String → ℕ → ℕ → JoinMarketCoin
coin id value depth = record {
  txid = id;
  index = 0;
  value = value;
  mixdepth = depth;
  confirmations = some 3;
  frozen = false;
}

abbrev coins : List JoinMarketCoin
coins = coin "a" 50 0 ∷ coin "b" 80 1 ∷ coin "c" 40 0 ∷ coin "d" 90 2 ∷ []

abbrev coinjoins : List String
coinjoins = "a" ∷ "b" ∷ "c" ∷ []

-- Mixdepth 1 covers 75 with 80, and mixdepth 0 only with 90.
abbrev chosen : Depths
chosen = (1, coin "b" 80 1 ∷ []) ∷ []

select_runs : select coinjoins coins (some 75) none ≡ ok chosen
unfolding select
select_runs = refl

select-Separate_example : Separate coinjoins none chosen
unfolding select
select-Separate_example = select-Separate coinjoins none coins (some 75) chosen refl

abbrev Flags : Type 0
Flags = Outpoint → Bool

-- It refuses every payment.
abbrev wallet : JoinMarketWallet Flags
wallet = record {
  freeze_utxo = λ u b w. (ok tt, λ v. if same_outpoint u v then b else w v);
  sweep_mixdepth = λ destination depth w. (err "no broadcast", w);
}

abbrev thawed : Flags
thawed u = false

same_outpoint_refl : (u : Outpoint) → same_outpoint u u ≡ true
unfolding same_outpoint
same_outpoint_refl u = ground (arith, (eq_iff u.0 u.0).1 refl)

documented : Documented wallet (λ w. w)
documented = record {
  freeze_sets = λ u b w returned. rw (same_outpoint_refl u) refl;
  freeze_others = λ u v b w apart. rw apart refl;
  sweep_keeps = λ destination depth v w. refl;
}

sweep-frozen_example :
    (sweep wallet coins (coin "a" 50 0 ∷ []) "bcrt1q" 0 thawed).1 ("c", 0) ≡ thawed ("c", 0)
unfolding freeze_each to_freeze
sweep-frozen_example =
    sweep-frozen wallet (λ w. w) documented coins (coin "a" 50 0 ∷ []) "bcrt1q" 0 thawed ("c", 0)
      (refl, (refl, (refl, (refl, tt)))) refl
