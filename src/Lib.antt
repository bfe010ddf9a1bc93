-- ===== src/Lib.antt =====
-- The order core of tx_trader, a trading platform for Taiwanese futures.
--
-- The program receives quotes, runs strategies, and keeps orders either on paper or with a broker.
-- This library models its live-order core: the contracts of tx_trade/orders/live_contracts.py and
-- the state machine of tx_trade/orders/live_state_machine.py, on which the journal, the
-- reconciliation and the broker adapters stand; the paper broker of
-- tx_trade/orders/paper_broker.py with all that it calls, the transitions of paper orders, the
-- positions that their fills build, matching and the execution policies; the cursors of
-- recording sessions, and the bounded ingress of market events. A caller of the live core creates an order from an intent, moves it by local transitions, and feeds it evidence: transport
-- receipts, broker order events and fills. The paper broker takes submissions, cancellations, and
-- market data with the decisions made on it; it matches its open orders against each quote and
-- writes a journal of numbered events.
--
-- Files:
-- - Common: names that all parts share; Common/Tests has Boolean tests on numbers and options,
--   Common/Raising the outcome of code that may raise, Common/Keys Python's dicts over keys with
--   an equality.
-- - Decimals: Python's decimal arithmetic on amounts that are not negative. Decimals/Exact and
--   Decimals/Bounds show when it is exact and admissible.
-- - Live/Contracts, Live/Events, Live/Order: live_contracts.py. A dataclass is a record or a data
--   type, and its `__post_init__` a check: `check_intent`, `check_command`, `check_binding`,
--   `check_receipt`, `check_correlation`, `check_order_event`, `check_fill_event`, and `post_init`
--   for LiveOrder. `matches_working_change` is
--   PendingCommandBinding.matches_authoritative_working_change.
-- - Live/Local: `create_live_order`, `advance_local`, `request_cancel`, `bind_operation`, and
--   `_snapshot` as `snapshot`; its child modules hold what is proved of each, and Requests which requests go through.
-- - Live/Ledger: AppliedEventLedger, `_deduplicate` and `_record`, ReductionResult.
-- - Live/Reduce: `reduce_dispatch` (Dispatch), `_broker_transition` (Transition),
--   `reduce_broker_order_event` (OrderEvent), `reduce_broker_fill_event` (FillEvent); the other
--   child modules hold what is proved of them.
-- - Live/Valid: the invariant of an order. Live/Creation, Live/History, Live/Final, Live/Redelivery:
--   creation, sequences of calls, their end, and evidence that is delivered again. Live/Tests: a concrete order.
-- - Paper/Contracts: OrderIntent and PaperOrder of tx_trade/orders/contracts.py. Paper/Transition:
--   `validate_order_transition` of tx_trade/orders/state_machine.py; Paper/Followed and
--   Paper/Progress hold what is proved of it, Paper/Tests an order that is filled in two steps.
--   Paper/Position: `apply_fill_to_position` of tx_trade/orders/position_ledger.py with PaperFill and
--   PaperPosition; Paper/Booking and Paper/Conservation hold what is proved of it,
--   Common/Integers signed numbers.
--   Paper/Matching: `inspect_quote_top` and `execution_price` of tx_trade/orders/matching.py, on the
--   fields of a quote that they read; Paper/Execution holds what is proved of them.
--   Paper/Events: PaperRejection, PaperEvent, CancelIntent and PaperBrokerLimits of
--   tx_trade/orders/contracts.py. Paper/Equality: when two events are equal. Paper/Policies: tx_trade/orders/execution_policies.py;
--   Paper/Charges and Paper/Fees hold what is proved of its fees.
-- - Paper/Broker: tx_trade/orders/paper_broker.py. State: `_BrokerState`, `_OutcomeRecord` and the
--   attributes of the broker. Names: `_uuid` and `_order_id`. Commands: `submit`. Cancel: `cancel`, `_evaluate_cancel`. Batched:
--   `_stage_batch_submit`, `_stage_batch_cancel`. Batch, Fills and Matches: `_stage_matches`.
--   Results: MatchResult, PaperDecisionBatchResult and PaperDecision with their checks. Envelopes:
--   `_validate_envelope_fence` and the matching of an envelope. Process: `process_decision_batch`
--   and `process_market_data`. Queries: `get_order`, `get_position`, `list_orders`. Changes is the broker's contract, a relation on the orders, the
--   outcomes of submissions and the journal; Allowed, Submitting, Cancelling, Batching, Filling and
--   Processing show that each call keeps to it; the other files draw what follows from it.
--   Paper/Tests/Brokers runs a broker on three calls.
-- - Market/Sequencer: tx_trade/market_data/sequencer.py; Market/Allocation holds its specification.
--   The lock makes each call one step, so concurrent callers are a sequence of calls.
--   Market/Ingress: the lanes of BoundedIngress in tx_trade/market_data/ingress.py; its child
--   modules hold what is proved of them, Market/Tests/Lanes a run of it.
--
-- Conventions:
-- - A Decimal is its value in units of a grid, which is a parameter; on a grid finer than any digit
--   that the operations produce, the arithmetic is Python's. Sums, products and quotients are
--   rounded half to even to 28 digits, the default context. The check of a Decimal's digits and
--   exponent asks that its value have such a representation. Cutting a value `x` to its first
--   digits recurses on fuel `x`, which is enough since each round divides by ten. Overflow traps of
--   the contexts are modelled in the position ledger only: an amount of a live order is below
--   10^6178, far from the default context's bound of 10^1000000, which is the matching's too.
-- - Amounts of a valid order lie on one lot, a power of ten of the grid, with at most 28 digits
--   above it, as on an exchange; `LotFits` says that the lot is within the bounds of the checks.
-- - Identifiers and fingerprints are only ever compared, so they are numbers, and their patterns
--   are not modelled. A datetime is a number of microseconds in UTC. Checks of types are vacuous.
-- - SHA-256 over canonical JSON is a parameter `digest` of the reducers, applied to what the source
--   digests. Nothing is assumed of it.
-- - The quantities of a position, and its fees, are counted in units of their common exponent, which
--   is from -6176 to 0: the trapping context of the ledger then raises just when a sum has more than
--   34 digits. Its other context overflows at 10^6145. uuid5 over the position's key is a parameter.
-- - The trapping context of the fees counts the digits of coefficients, so whether an operation is
--   exact goes by how a Decimal is written. `ExactContext` is a parameter that says so, by the rule
--   and the quantities. Overflow of the policies' contexts is not modelled.
-- - The checks of paper orders and fills take the precision of the context they run in; the paper
--   broker runs them in 34 digits. uuid5 of a run with a name, and SHA-256 of
--   commands, decisions and envelopes, are parameters of the broker. The parts of a name are joined
--   by the unit separator, which an id may contain, so different submissions may have one order id;
--   `IsSeparated` says of the recorded submissions that no strategy id contains it and that uuid5
--   does not collide on their names, and is a hypothesis where order ids have to differ. A call of the broker is one
--   step, since a lock is held, and a call that raises leaves the state as it was.
-- - A raised error is a value of `Fault`, one constructor for each message.
--
-- Not modelled: the broker adapters, storage in SQLite, the rest of market data, strategies,
-- the checkpoints of the paper broker and its sorted snapshot, and the application around them;
-- interactive scripts and the broker's samples.
pub mod Common
pub mod Decimals
pub mod Live
pub mod Market
pub mod Paper
