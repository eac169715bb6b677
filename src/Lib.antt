-- ===== src/Lib.antt =====
-- The coinjoin emulator (Python, manager/): it starts a regtest Bitcoin node, coordinators and many
-- wallets in containers, funds the wallets, lets them mix, and keeps the evidence of which transactions
-- were coinjoins. This library models the parts of manager/ that decide something.
--
-- The parts and how they interact:
--   A scenario is drawn by a generator (Generators) and read by the configuration (Config). An engine
--   (manager/engine/engine_base.py with wasabi_engine.py or joinmarket_engine.py) then runs a loop
--   (Runs) that ticks once a second or so with the current block and round. A tick pays the invoices
--   that are due (Funding), sends the postmix spends that are due (PostmixSpends) through a wallet
--   (WasabiClient, Mixdepths), and updates the clients by their schedules (Schedule, JoinMarket). A
--   JoinMarket tick first scans the new blocks, which confirms rounds and is the round counter
--   (Rounds.Confirm), and then updates every client (JoinMarket.Engine); its clients call jmwalletd
--   (Jmwalletd), and their fidelity bonds are funded before the mixing (Bonds). The export after the
--   run matches all rounds to all blocks (Rounds.Export). Scan and export go through the
--   reconciliation (Rounds.Reconcile).
--
-- The files:
--   Base           names of the libraries, Boolean tests, lists, sums, Python's sorted, results.
--   Selection      the greedy choice of coins that `_select_by_amount`
--                  (manager/engine/joinmarket/postmix.py) and `_select_coins_by_amount`
--                  (manager/wasabi_clients/wasabi_client_base.py) share.
--   WasabiClient   wasabi_client_base.py: `_select_mixed_coins`, `check_mixed_coins`; Inputs: `send`;
--                  Rpc: `_rpc` and `_is_transient`; Settlement: `_wait_for_postmix_settlement`
--                  and `send_mixed_coins`.
--   Rounds         manager/engine/joinmarket/round_event_record.py; Reconcile: the reconciliation of
--                  events.py over blocks as the exported records read them; Confirm:
--                  round_confirmation.py; Export: the rest of events.py. Refs, Groups, Marks, Agreement
--                  and Verdict hold proofs.
--   Schedule       `outside_schedule` and `is_paused` of joinmarket_client_base.py, and
--                  `_run_limit_reached` and `update_coinjoins` of wasabi_engine.py.
--   JoinMarket     joinmarket_clients.py: Taker (`TakerClient.update` and `update_async`), Maker
--                  and Tumbler (their updates). An unanswered call of an asynchronous session reads as
--                  the defaults that the code passes on. Engine: `update_coinjoins` and
--                  `update_coinjoins_async` of joinmarket_engine.py over all clients; Calmer, Pending,
--                  Counter and Limit hold proofs.
--   Jmwalletd      `_rpc`, the verdict on a reply and `wait_wallet` of joinmarket_client_base.py;
--                  Attempts, Posts and Waiting hold proofs.
--   Bonds          fidelity_bond.py and the bonds of joinmarket_engine.py
--                  (`prepare_additional_funding`); Funded holds proofs.
--   Runs           the run loops of joinmarket_engine.py and wasabi_engine.py with their limits; Limits,
--                  Ends and WasabiEnds hold proofs.
--   Transfers      `simple_send` and `send` of joinmarket_client_base.py; Lost: `pay_invoices` with them.
--   PostmixSpends  manager/engine/postmix_spends.py.
--   Mixdepths      JoinMarketPostmixWallet of postmix.py: `_select`; Sweep: `_sweep`;
--                  Payment: `stop_coinjoin`, `check_mixed_coins` and `send_mixed_coins`.
--   Funding        `prepare_invoices`, `pay_invoices` and `update_invoice_payments` of engine_base.py;
--                  Distributor: `fund_distributor`.
--   Labels         manager/engine/base/manifest.py: the manifest of the sources of labels.
--   Readiness      manager/bitcoin_readiness.py: the waits, over the samples before the deadline.
--   Config         manager/engine/configuration.py: `_parse_postmix_spend`; Wallets: `_parse_wallet`
--                  and `to_dict`; Scenario: the rest of a scenario and its validation for an engine.
--   Startup        `_start_classified_wallets`, `start_clients` and `validate_clients` of
--                  engine_base.py.
--   Generators     manager/commands/genscen_joinmarket.py: the coins, delays and locktimes that a
--                  scenario gets.
--   Files named Examples hold runs and the theorems at concrete inputs.
--
-- How state and calls are modelled: an object is a record, and an operation returns the record that it
-- leaves; a list of shared dictionaries (the round events) is a store, and a reference into it is a
-- place. A call that may raise returns a result, and what it leaves comes back beside the error where
-- the program goes on with it. Calls of a wallet, the node, the clock, the random generator and the
-- distributor are parameters over a world, or the answers that they give; what is relied on them is a
-- hypothesis of the theorem (`Documented` for jmwalletd's freezes, `Rises` for a chain, a shuffle that
-- permutes). Calls that Python makes in parallel are made in order.
--
-- Numbers and bounds: amounts are satoshis, times whole seconds (milliseconds where a wait is timed), and
-- an anonymity score is in hundredths. Python's integers do not overflow. The height before the first
-- scan is -1, so a scanned height is an integer. The loops that are not structural run on fuel:
-- `take_coins` on the number of candidates, of which each step takes one; `pay_batches` on the number
-- of invoices, of which each step pays at least one; `start_batches` on the number of wallets;
-- `retry_until_deadline` on the time that is left and one more, as each step sleeps; the run loops of
-- runs with a block limit on that limit and two more, as the chain grows at each step; `send_until`
-- on sixteen turns, as each pauses two of the thirty seconds; `carry_years` on the months that there
-- are. That this is enough is part of the theorems; a run without a block limit has no such fuel. The
-- wait of `fund_distributor` takes the fuel that its theorem finds. `attempts` of WasabiClient.Rpc and
-- of Jmwalletd are the counts that Python's range gives, and the depth of `rpc` is that of Python's
-- stack.
--
-- Not modelled: the container drivers, the requests themselves, the Kubernetes proxy, the remote control,
-- the Wasabi services and the command lines, which are input and output; the reading and writing of
-- files. The values and the export of fidelity bonds, which are float arithmetic, are left out,
-- and texts of log lines and of errors, where nothing is decided by them.
pub mod Base
pub mod Bonds
pub mod Config
pub mod Funding
pub mod Generators
pub mod Jmwalletd
pub mod JoinMarket
pub mod Labels
pub mod Mixdepths
pub mod PostmixSpends
pub mod Readiness
pub mod Rounds
pub mod Runs
pub mod Schedule
pub mod Selection
pub mod Startup
pub mod Transfers
pub mod WasabiClient
