-- ===== src/Paper/Broker/Results.antt =====
-- tx_trade/orders/contracts.py: what the broker returns for an envelope, with the constructors'
-- checks. `PaperDecision` has its checks here too.
use tx_trader.Common.{
  ℕ, Bool, true, false, ◌&&◌, ◌||◌, not, some, List, [], ◌∷◌, Outcome, ◌>>◌, raise_if, leb, ◌==◌,
  same, is_some,
}
use tx_trader.Paper.Position.{PaperFill, PaperPosition}
use tx_trader.Paper.Matching.{MatchSkipReason}
use tx_trader.Paper.Events.{PaperEvent}
use tx_trader.Paper.Equality.{starts_with}
use tx_trader.Paper.Broker.State.{OrderCommandResult, Command, PaperDecision, BrokerFault}

pub data MatchDisposition : Type 0 where
  processed duplicate : MatchDisposition

pub record MatchResult : Type 0 where
  pub paper_run_id : ℕ
  pub disposition : MatchDisposition
  pub source_session_id : ℕ
  pub source_ingest_sequence : ℕ
  pub fills : List PaperFill
  pub events : List PaperEvent
  pub skip_reasons : List MatchSkipReason
  pub snapshot_version : ℕ
  pub positions : List PaperPosition

pub record PaperDecisionBatchResult : Type 0 where
  pub paper_run_id : ℕ
  pub source_session_id : ℕ
  pub source_ingest_sequence : ℕ
  pub decision_fingerprint : ℕ
  pub match_result : MatchResult
  pub command_results : List OrderCommandResult
  pub events : List PaperEvent

-- Every element passes the test.
unfoldable pub every : {A : Type 0} → (A → Bool) → List A → Bool
every test [] = true
every test (x ∷ xs) = test x && every test xs

abbrev pub is_empty_list : {A : Type 0} → List A → Bool
is_empty_list [] = true
is_empty_list (x ∷ xs) = false

abbrev pub is_duplicate : MatchDisposition → Bool
is_duplicate MatchDisposition.duplicate = true
is_duplicate MatchDisposition.processed = false

-- A number for each reason, to compare them.
abbrev pub reason_number : MatchSkipReason → ℕ
reason_number MatchSkipReason.metadata_unavailable = 0
reason_number MatchSkipReason.metadata_mismatch = 1
reason_number MatchSkipReason.price_scale_unavailable = 2
reason_number MatchSkipReason.quantity_scale_unavailable = 3
reason_number MatchSkipReason.price_unavailable = 4
reason_number MatchSkipReason.quantity_unavailable = 5
reason_number MatchSkipReason.simulated_quote = 6
reason_number MatchSkipReason.invalid_book = 7
reason_number MatchSkipReason.no_liquidity = 8
reason_number MatchSkipReason.event_not_quote = 9
reason_number MatchSkipReason.order_not_eligible = 10
reason_number MatchSkipReason.limit_not_crossed = 11
reason_number MatchSkipReason.slippage_exceeds_limit = 12

unfoldable pub has_reason : MatchSkipReason → List MatchSkipReason → Bool
has_reason r [] = false
has_reason r (x ∷ xs) = reason_number r == reason_number x || has_reason r xs

-- `len(set(...)) == len(...)`
unfoldable pub has_no_duplicates : List MatchSkipReason → Bool
has_no_duplicates [] = true
has_no_duplicates (x ∷ xs) = not (has_reason x xs) && has_no_duplicates xs

-- The source that a result and its event have, if the event has one.
abbrev pub is_caused_by : ℕ → ℕ → PaperEvent → Bool
is_caused_by session sequence e =
    same e.source_session_id (some session) && same e.source_ingest_sequence (some sequence)

-- `MatchResult.__post_init__`
unfoldable pub check_match_result : MatchResult → Outcome BrokerFault (Unit {0})
check_match_result r = do
  raise_if (not (has_no_duplicates r.skip_reasons)) BrokerFault.result_mismatch
  raise_if
      (not (
        every
          (λ f.
            f.paper_run_id == r.paper_run_id
            && f.source_session_id == r.source_session_id
            && f.source_ingest_sequence == r.source_ingest_sequence)
          r.fills))
      BrokerFault.result_mismatch
  raise_if
      (not (
        every
          (λ e.
            e.paper_run_id == r.paper_run_id
            && (not (is_some e.source_session_id)
                || is_caused_by r.source_session_id r.source_ingest_sequence e))
          r.events))
      BrokerFault.result_mismatch
  raise_if (not (every (λ p. p.paper_run_id == r.paper_run_id) r.positions))
      BrokerFault.result_mismatch
  raise_if
      (is_duplicate r.disposition
        && not (is_empty_list r.fills && is_empty_list r.events && is_empty_list r.positions))
      BrokerFault.result_mismatch

abbrev pub result_run : OrderCommandResult → ℕ
result_run (OrderCommandResult.of_order o) = o.paper_run_id
result_run (OrderCommandResult.of_rejection r) = r.paper_run_id

-- Each event's number is below the next one's.
unfoldable pub increases : List PaperEvent → Bool
increases [] = true
increases (e ∷ []) = true
increases (e ∷ e' ∷ es) = not (leb e'.paper_sequence e.paper_sequence) && increases (e' ∷ es)

-- `PaperDecisionBatchResult.__post_init__`
unfoldable pub check_batch_result : PaperDecisionBatchResult → Outcome BrokerFault (Unit {0})
check_batch_result r = do
  raise_if (not (r.match_result.paper_run_id == r.paper_run_id)) BrokerFault.result_mismatch
  raise_if
      (not (
        r.match_result.source_session_id == r.source_session_id
        && r.match_result.source_ingest_sequence == r.source_ingest_sequence))
      BrokerFault.result_mismatch
  raise_if (not (every (λ c. result_run c == r.paper_run_id) r.command_results))
      BrokerFault.result_mismatch
  raise_if (not (starts_with r.events r.match_result.events)) BrokerFault.result_mismatch
  raise_if
      (not (
        every
          (λ e.
            e.paper_run_id == r.paper_run_id
            && is_caused_by r.source_session_id r.source_ingest_sequence e)
          r.events))
      BrokerFault.result_mismatch
  raise_if (not (increases r.events)) BrokerFault.result_mismatch
  raise_if
      (is_duplicate r.match_result.disposition
        && not (is_empty_list r.command_results && is_empty_list r.events))
      BrokerFault.result_mismatch

-- The source of a command is the decision's.
abbrev pub command_matches : ℕ → ℕ → Command → Bool
command_matches session sequence (Command.place i) =
    same i.source_session_id (some session) && same i.source_ingest_sequence (some sequence)
command_matches session sequence (Command.withdraw c) =
    same c.source_session_id (some session) && same c.source_ingest_sequence (some sequence)

-- `PaperDecision.__post_init__`
unfoldable pub check_decision : PaperDecision → Outcome BrokerFault (Unit {0})
check_decision d =
    raise_if (not (every (command_matches d.source_session_id d.source_ingest_sequence) d.commands))
      BrokerFault.decision_mismatch
