-- ===== src/Paper/Broker/State.antt =====
-- tx_trade/orders/paper_broker.py: the state, and what the broker is given once.
--
-- The lock and the checks of types are left out: a call is one step, and one that raises commits
-- nothing. A `Broker` holds the attributes set by `__init__`, and stands for the code that is not
-- in the repository: uuid5 of the run with a name, `str` of uuids and numbers, and the SHA-256
-- digests of commands, decisions and envelopes. `text` is the text of an identifier. Quantities are counted in units of which `lot` make 1. The checks of
-- order and fill run in the 34-digit context.
use tx_trader.Common.{
  ℕ, suc, Bool, Option, none, some, List, [], ◌∷◌, Outcome, ok, raise, ◌==◌, same, is_some,
  if◌then◌else◌, Dict, get, eq_nat,
}
use tx_trader.Decimals.{Grid}
use tx_trader.Paper.Contracts.{PaperFault, OrderIntent, PaperOrder, is_closed}
use tx_trader.Paper.Position.{PositionFault, PaperFill, PaperPosition}
use tx_trader.Paper.Matching.{InstrumentMetadataSnapshot, Quote}
use tx_trader.Paper.Policies.{SlippageConfig, PaperFeeSchedule, PolicyFault, ExactContext}
use tx_trader.Paper.Events.{
  RejectionCode, CancelIntent, EventFault, PaperRejection, PaperEvent, PaperBrokerLimits,
}

-- `OrderCommandResult`: an order, or a rejection.
pub data OrderCommandResult : Type 0 where
  of_order : PaperOrder → OrderCommandResult
  of_rejection : PaperRejection → OrderCommandResult

pub data Command : Type 0 where
  place : OrderIntent → Command
  withdraw : CancelIntent → Command

pub record PaperDecision : Type 0 where
  pub source_session_id : ℕ
  pub source_ingest_sequence : ℕ
  pub commands : List Command

-- The payloads that the broker looks at; the event's type is the payload's.
pub data EnvelopePayload : Type 0 where
  instrument : InstrumentMetadataSnapshot → EnvelopePayload
  quote : Quote → EnvelopePayload
  other : EnvelopePayload

pub record MarketDataEnvelope : Type 0 where
  pub session_id : ℕ
  pub source : ℕ
  pub ingest_sequence : ℕ
  pub event_at : Option ℕ
  pub received_at : ℕ
  pub metadata_version : Option ℕ
  pub dedupe_key : ℕ
  pub payload : EnvelopePayload

-- The two kinds of error that the broker raises itself, and those that its constructors' checks and
-- the modules it calls raise.
pub data BrokerFault : Type 0 where
  cancel_session_mismatch decision_mismatch session_mismatch : BrokerFault
  source_mismatch content_conflict sequence_conflict out_of_order dedupe_reused : BrokerFault
  decision_conflict metadata_conflict : BrokerFault
  record_capacity metadata_capacity data_capacity batch_capacity : BrokerFault
  not_in_store arithmetic result_mismatch : BrokerFault
  of_order_check : PaperFault → BrokerFault
  of_event_check : EventFault → BrokerFault
  of_position : PositionFault → BrokerFault
  of_policy : PolicyFault → BrokerFault

-- A call whose error passes through.
abbrev pub within : {E F A : Type 0} → (E → F) → Outcome E A → Outcome F A
within f (ok a) = ok a
within f (raise e) = raise (f e)

pub record Broker : Type 0 where
  pub paper_run_id : ℕ
  pub limits : PaperBrokerLimits
  pub slippage : SlippageConfig
  pub fee_schedule : PaperFeeSchedule
  pub config_fingerprint : ℕ
  pub grid : Grid
  pub lot : ℕ
  pub exact_context : ExactContext
  pub uuid5 : List ℕ → ℕ
  pub text : ℕ → List ℕ
  pub str_uuid : ℕ → List ℕ
  pub str_int : ℕ → List ℕ
  pub position_id : (run strategy account instrument : ℕ) → ℕ
  pub submit_digest : OrderIntent → ℕ
  pub cancel_digest : CancelIntent → ℕ
  pub decision_digest : PaperDecision → ℕ
  pub envelope_digest : MarketDataEnvelope → ℕ
  pub dedupe_digest : ℕ → ℕ

-- `_OutcomeRecord`
pub record OutcomeRecord : Type 0 where
  pub primary_digest : ℕ
  pub primary_outcome : OrderCommandResult
  pub alternate_digest : Option ℕ
  pub alternate_outcome : Option OrderCommandResult

-- `_OutcomeRecord.find`
unfoldable pub find_outcome : OutcomeRecord → ℕ → Option OrderCommandResult
find_outcome r digest =
    if digest == r.primary_digest
    then some r.primary_outcome
    else if same (some digest) r.alternate_digest
    then r.alternate_outcome
    else none

-- `_OutcomeRecord.has_alternate`
abbrev pub has_alternate : OutcomeRecord → Bool
has_alternate r = is_some r.alternate_digest

-- `_OutcomeRecord(digest, outcome)`
abbrev pub first_outcome : ℕ → OrderCommandResult → OutcomeRecord
first_outcome digest outcome = record {
  primary_digest = digest;
  primary_outcome = outcome;
  alternate_digest = none;
  alternate_outcome = none;
}

-- `replace(record, alternate_digest=..., alternate_outcome=...)`
abbrev pub with_alternate : OutcomeRecord → ℕ → OrderCommandResult → OutcomeRecord
with_alternate r digest outcome = record r {
  alternate_digest = some digest;
  alternate_outcome = some outcome;
}

-- The state; an eligibility of -1 is `none`. The fingerprint of the execution configuration never
-- changes and stands in the `Broker`.
pub record BrokerState : Type 0 where
  pub effective_session : Option ℕ
  pub bound_session : Option ℕ
  pub bound_source : Option ℕ
  pub last_sequence : Option ℕ
  pub next_paper_sequence : ℕ
  pub snapshot_version : ℕ
  pub orders : Dict ℕ PaperOrder
  pub positions : Dict (ℕ × ℕ × ℕ) PaperPosition
  pub submit_outcomes : Dict (ℕ × ℕ) OutcomeRecord
  pub cancel_outcomes : Dict (ℕ × ℕ × ℕ) OutcomeRecord
  pub acceptance_ordinal : Dict ℕ ℕ
  pub eligibility_sequence : Dict ℕ (Option ℕ)
  pub next_acceptance_ordinal : ℕ
  pub fills : List PaperFill
  pub events : List PaperEvent
  pub instruments : Dict (ℕ × ℕ) InstrumentMetadataSnapshot
  pub envelope_fingerprints : Dict ℕ ℕ
  pub decision_fingerprints : Dict ℕ ℕ
  pub dedupe_sequences : Dict ℕ ℕ

-- The state that `__init__` sets.
unfoldable pub initial : Option ℕ → BrokerState
initial expected_session = record {
  effective_session = expected_session;
  bound_session = none;
  bound_source = none;
  last_sequence = none;
  next_paper_sequence = 1;
  snapshot_version = 0;
  orders = [];
  positions = [];
  submit_outcomes = [];
  cancel_outcomes = [];
  acceptance_ordinal = [];
  eligibility_sequence = [];
  next_acceptance_ordinal = 1;
  fills = [];
  events = [];
  instruments = [];
  envelope_fingerprints = [];
  decision_fingerprints = [];
  dedupe_sequences = [];
}

-- `_open_order_count`
unfoldable pub open_order_count : Dict ℕ PaperOrder → ℕ
open_order_count [] = 0
open_order_count ((k, o) ∷ orders) =
    let rest = open_order_count orders in if is_closed o.status then rest else suc rest

-- `_resolve_cached_outcome`
unfoldable pub resolve_cached_outcome : Dict ℕ PaperOrder → OrderCommandResult → OrderCommandResult
resolve_cached_outcome orders (OrderCommandResult.of_rejection r) =
    OrderCommandResult.of_rejection r
resolve_cached_outcome orders (OrderCommandResult.of_order o) = elim (get orders o.paper_order_id) [
  | none ↦ OrderCommandResult.of_order o
  | some current ↦ OrderCommandResult.of_order current
]

-- `_rejection_value`
unfoldable pub rejection_value : Broker → ℕ → ℕ → RejectionCode → ℕ → Option ℕ → PaperRejection
rejection_value b strategy_id client_order_id code rejected_at paper_order_id = record {
  paper_run_id = b.paper_run_id;
  strategy_id = strategy_id;
  client_order_id = client_order_id;
  code = code;
  rejected_at = rejected_at;
  paper_order_id = paper_order_id;
}
