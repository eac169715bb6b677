-- ===== src/JoinMarket.antt =====
-- The JoinMarket clients of
-- manager/wasabi_clients/joinmarket_clients/joinmarket_clients.py: a maker and a taker, each updated
-- once a tick with the current block and round. What jmwalletd answers is an input of an update.
pub mod Taker
pub mod Maker
pub mod Tumbler
pub mod Engine
mod Examples
use coinjoin_emulator.Base.{
  ℕ, Bool, false, String, Option, none, some, List, [], ◌∷◌, get_elem?, ◌%◌, length,
}
use coinjoin_emulator.Base.Int.{ℤ}
use coinjoin_emulator.Schedule.{Pacing}

-- The entries of an offer that a taker's start reads.
pub record Offer : Type 0 where
  pub offer_amount : Option ℕ
  pub offer_counterparties : Option ℕ
  pub offer_mixdepth : Option ℕ

-- What an update raises: jmwalletd's state is not reported, there is no offer to take (a remainder
-- by zero), no address is given, or the start or the stop is not answered.
pub data ClientError : Type 0 where
  no_session no_offer no_address start_failed stop_failed : ClientError

-- `get_offer`: the offers in turn.
unfoldable pub get_offer : List Offer → ℕ → Option Offer
get_offer [] round = none
get_offer (o ∷ os) round = get_elem? (o ∷ os) (round % length (o ∷ os))

-- A flag of the session that an asynchronous update reads: `{}` stands for a session that is not
-- answered, and `get` gives the default of an entry that it lacks.
unfoldable pub or_false : Option Bool → Bool
or_false none = false
or_false (some b) = b
