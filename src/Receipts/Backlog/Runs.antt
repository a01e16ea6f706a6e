-- ===== src/Receipts/Backlog/Runs.antt =====
-- receipts/backlog_ingest.py: the plan of the unprocessed receipts, and `process_backlog`.
use home_budget_pipeline.Prelude.{
  ℕ, ◌+◌, Bool, true, false, not, none, some, List, [], ◌∷◌, length, select, if◌then◌else◌, suc,
  Option,
}
use home_budget_pipeline.Prelude.Table.{lookup}
use home_budget_pipeline.Prelude.Result.{Result, raises, returns}
use home_budget_pipeline.Receipts.Backlog.{
  succeeded, review_required, BacklogError, BacklogDatabase, ReceiptCandidate, is_completed,
}
use home_budget_pipeline.Receipts.Backlog.Process.{
  ParsedReceipt, Attempt, ProcessOptions, CandidateStatus, skipped, finished_as, process_candidate,
}

pub record DiscoveryPlan : Type 0 where
  pub discovered : List ReceiptCandidate
  pub pending : List ReceiptCandidate
  pub already_done : List ReceiptCandidate

pub record BacklogSummary : Type 0 where
  pub discovered : ℕ
  pub skipped : ℕ
  pub succeeded : ℕ
  pub failed : ℕ
  pub review_required : ℕ

-- `summary[status] += 1`, or the failure of the candidate.
unfoldable pub count_result : Result BacklogError CandidateStatus → BacklogSummary → BacklogSummary
count_result (raises exc) s = record s { failed = s.failed + 1 }
count_result (returns skipped) s = record s { skipped = s.skipped + 1 }
count_result (returns (finished_as review_required)) s = record s {
  review_required = s.review_required + 1;
}
count_result (returns (finished_as succeeded)) s = record s { succeeded = s.succeeded + 1 }
count_result (returns (finished_as _)) s = record s { failed = s.failed + 1 }

abbrev pub backlog_options : Bool → ProcessOptions
backlog_options refresh = record {
  refresh_ocr_cache = refresh;
  max_attempts = none;
  verify_source = false;
  reprocess_request_id = none;
}

module _ {E : Type 0} where
  abbrev pub is_done : BacklogDatabase E → ReceiptCandidate → Bool
  is_done db c = is_completed c.source_sha256 db

  unfoldable pub plan_unprocessed_receipts :
      List ReceiptCandidate → BacklogDatabase E → DiscoveryPlan
  unfolding select lookup
  plan_unprocessed_receipts candidates db = record {
    discovered = candidates;
    pending = select (λ c. not (is_done db c)) candidates;
    already_done = select (is_done db) candidates;
  }

  module _ (persist : Bool → ParsedReceipt → E → Result BacklogError E) where
    -- The loop; `attempt i` is what the i-th attempt meets.
    unfoldable pub process_pending :
        Bool
        → (ℕ → Attempt)
        → ℕ
        → List ReceiptCandidate
        → BacklogSummary × BacklogDatabase E
        → BacklogSummary × BacklogDatabase E
    unfolding process_candidate count_result
    process_pending refresh attempt index [] (s, db) = (s, db)
    process_pending refresh attempt index (c ∷ pending) (s, db) =
        let (result, next) =
          process_candidate persist c (backlog_options refresh) (attempt index) db in
        process_pending refresh attempt (suc index) pending (count_result result s, next)

    abbrev pub first_summary : Bool → DiscoveryPlan → BacklogSummary
    first_summary refresh plan = record {
      discovered = length plan.discovered;
      skipped = if refresh then 0 else length plan.already_done;
      succeeded = 0;
      failed = 0;
      review_required = 0;
    }

    -- The processing under the lock; without the lock there is no summary.
    unfoldable pub process_backlog :
        Bool
        → Bool
        → (ℕ → Attempt)
        → List ReceiptCandidate
        → BacklogDatabase E
        → Option BacklogSummary × BacklogDatabase E
    unfolding plan_unprocessed_receipts process_pending
    process_backlog false refresh attempt candidates db = (none, db)
    process_backlog true refresh attempt candidates db =
        let plan = plan_unprocessed_receipts candidates db in
        let pending = if refresh then plan.discovered else plan.pending in
        let (s, done) =
          process_pending refresh attempt 1 pending (first_summary refresh plan, db) in
        (some s, done)
