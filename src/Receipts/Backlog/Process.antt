-- ===== src/Receipts/Backlog/Process.antt =====
-- receipts/backlog_ingest.py: one attempt at a receipt. The parser and the evidence store are other
-- components: what they return is given, with the digests of the file before and after.
use home_budget_pipeline.Prelude.{
  ℕ, Bool, not, ◌&&◌, ◌||◌, Option, none, some, List, [], ◌∷◌, ◌==◌, is_none, if◌then◌else◌, length,
}
use home_budget_pipeline.Prelude.Table.{lookup}
use home_budget_pipeline.Prelude.Result.{Result, raises, returns, ◌>>=◌, ◌>>◌, require}
use home_budget_pipeline.Receipts.Backlog.{
  ProcessingStatus, succeeded, review_required, BacklogError, retry_exhausted, refresh_required,
  source_changed, not_one_receipt, BacklogDatabase, ReceiptCandidate, is_completed, insert_request,
  update_request, raise_attempts, complete_row, reached, row_reached, mark_processing,
  mark_completed, mark_failed,
}

pub record ParsedReceipt : Type 0 where
  pub source_sha256 : ℕ
  pub is_complete : Bool

-- What the attempt meets: the digest of the file before and after it is read, and the receipts.
pub record Attempt : Type 0 where
  pub sha_before : ℕ
  pub parsed : Result BacklogError (List ParsedReceipt)
  pub sha_after : ℕ

-- The arguments of `process_candidate`.
pub record ProcessOptions : Type 0 where
  pub refresh_ocr_cache : Bool
  pub max_attempts : Option ℕ
  pub verify_source : Bool
  pub reprocess_request_id : Option ℕ

-- The returned text.
pub data CandidateStatus : Type 0 where
  skipped : CandidateStatus
  finished_as : ProcessingStatus → CandidateStatus

abbrev pub single : List ParsedReceipt → Result BacklogError ParsedReceipt
single (r ∷ []) = returns r
single rs = raises (not_one_receipt (length rs))

abbrev pub status_of : ParsedReceipt → ProcessingStatus
status_of r = if r.is_complete then succeeded else review_required

module _ {E : Type 0} (persist : Bool → ParsedReceipt → E → Result BacklogError E) where
  abbrev pub complete_request : ReceiptCandidate → Option ℕ → BacklogDatabase E → BacklogDatabase E
  complete_request c none db = db
  complete_request c (some id) db = record db {
    requests = update_request c.source_sha256 id complete_row db.requests;
  }

  -- The body of `try`, after the attempt was committed.
  unfoldable pub run_attempt :
      ReceiptCandidate
      → ProcessOptions
      → Attempt
      → BacklogDatabase E
      → Result BacklogError (ProcessingStatus × BacklogDatabase E)
  unfolding mark_completed update_request
  run_attempt c o a db = do
    require (not o.verify_source || a.sha_before == c.source_sha256) source_changed
    receipts ← a.parsed
    receipt ← single receipts
    require
        (not o.verify_source
          || (receipt.source_sha256 == c.source_sha256 && a.sha_after == c.source_sha256))
        source_changed
    evidence ← persist o.refresh_ocr_cache receipt db.evidence
    returns (
      status_of receipt,
      complete_request c o.reprocess_request_id
          (mark_completed c (status_of receipt) (record db { evidence = evidence })),
    )

  -- The result of a call, and the committed database after it.
  abbrev pub CallResult : Type 0
  CallResult = Result BacklogError CandidateStatus × BacklogDatabase E

  -- The end of `try`: a commit, or a rollback and the failure.
  abbrev pub settle_attempt :
      ReceiptCandidate
      → BacklogDatabase E
      → Result BacklogError (ProcessingStatus × BacklogDatabase E)
      → CallResult
  settle_attempt c db (returns (status, done)) = (returns (finished_as status), done)
  settle_attempt c db (raises exc) = (raises exc, mark_failed c exc db)

  unfoldable pub attempt_receipt :
      ReceiptCandidate → ProcessOptions → Attempt → BacklogDatabase E → CallResult
  unfolding run_attempt mark_processing mark_failed
  attempt_receipt c o a db =
      let started = mark_processing c db in settle_attempt c started (run_attempt c o a started)

  -- The checks of the receipt's own row, after those of a request.
  unfoldable pub process_claimed :
      ReceiptCandidate → ProcessOptions → Attempt → BacklogDatabase E → CallResult
  unfolding attempt_receipt lookup mark_failed
  process_claimed c o a db =
      if not o.refresh_ocr_cache && is_completed c.source_sha256 db
      then (returns skipped, db)
      else if is_none o.reprocess_request_id
          && row_reached o.max_attempts (lookup c.source_sha256 db.statuses)
      then (raises retry_exhausted, mark_failed c retry_exhausted db)
      else attempt_receipt c o a db

  -- A request that is read for the first time is inserted; its attempts count on their own.
  unfoldable pub process_request :
      ReceiptCandidate → ProcessOptions → ℕ → Attempt → BacklogDatabase E → CallResult
  unfolding process_claimed insert_request update_request
  process_request c o id a db =
      let (rows, row) = insert_request c.source_sha256 id db.requests in
      if not o.refresh_ocr_cache
      then (raises refresh_required, db)
      else if row.completed
      then (returns skipped, record db { requests = rows })
      else if reached o.max_attempts row.attempts
      then (raises retry_exhausted, db)
      else process_claimed c o a
          (record db { requests = update_request c.source_sha256 id raise_attempts rows })

  -- `_process_candidate`, under the lock of the receipt.
  unfoldable pub process_candidate :
      ReceiptCandidate → ProcessOptions → Attempt → BacklogDatabase E → CallResult
  unfolding process_claimed process_request
  process_candidate c o a db = elim o.reprocess_request_id [
    | none ↦ process_claimed c o a db
    | some id ↦ process_request c o id a db
  ]
