-- ===== src/Receipts/Backlog/Attempts.antt =====
-- What an attempt leaves in the row of its receipt.
use home_budget_pipeline.Prelude.{
  ℕ, Bool, true, false, not, ◌&&◌, ◌||◌, Option, none, some, ◌==◌, is_none, if◌then◌else◌, ◌≡◌,
  refl, sym, subst, ◌∙◌, ◌⊎◌, inl, inr, Bool-cases, ==_refl,
}
use home_budget_pipeline.Prelude.Table.{lookup, upsert, lookup-upsert, Table}
use home_budget_pipeline.Prelude.Result.{
  Result, raises, returns, bind-inversion, require-inversion, returns-inj,
}
use home_budget_pipeline.Receipts.Backlog.{
  ProcessingStatus, succeeded, review_required, failed, StatusRow, BacklogError, retry_exhausted,
  source_changed, BacklogDatabase, ReceiptCandidate, is_completed, insert_request, update_request,
  raise_attempts, reached, row_reached, mark_processing, mark_completed, mark_failed, completed_row,
  failed_row,
}
use home_budget_pipeline.Receipts.Backlog.Process.{
  ParsedReceipt, Attempt, ProcessOptions, skipped, finished_as, single, status_of, complete_request,
  run_attempt, settle_attempt, attempt_receipt, process_claimed, process_request, process_candidate,
  CallResult,
}

-- The row is completed with the status, and has no error.
abbrev pub IsCompleted : ProcessingStatus → Option StatusRow → Type 0
IsCompleted status none = ⊥
IsCompleted status (some r) = (r.status ≡ status) × (r.completed ≡ true) × (r.last_error ≡ none)

-- The row has failed with the error, and is not completed.
abbrev pub HasFailed : BacklogError → Option StatusRow → Type 0
HasFailed exc none = ⊥
HasFailed exc (some r) = (r.status ≡ failed) × (r.completed ≡ false) × (r.last_error ≡ some exc)

completed_row-IsCompleted :
    (status : ProcessingStatus) (o : Option StatusRow)
    → IsCompleted status (some (completed_row status o))
completed_row-IsCompleted status none = (refl, refl, refl)
completed_row-IsCompleted status (some r) = (refl, refl, refl)

failed_row-HasFailed :
    (exc : BacklogError) (o : Option StatusRow) → HasFailed exc (some (failed_row exc o))
failed_row-HasFailed exc none = (refl, refl, refl)
failed_row-HasFailed exc (some r) = (refl, refl, refl)

lookup-same : (k : ℕ) (v : StatusRow) (t : Table StatusRow) → lookup k (upsert k v t) ≡ some v
lookup-same k v t = lookup-upsert k k v t ∙ (rw (==_refl k) refl)

status_of_cases : (r : ParsedReceipt) → (status_of r ≡ succeeded) ⊎ (status_of r ≡ review_required)
status_of_cases r = elim (Bool-cases r.is_complete) [
  | inl e ↦ inl (rw e refl)
  | inr e ↦ inr (rw e refl)
]

module _ {E : Type 0} (persist : Bool → ParsedReceipt → E → Result BacklogError E) where
  -- The row of the receipt after the call, by what the call returned.
  abbrev pub IsRecorded : ReceiptCandidate → BacklogDatabase E → CallResult persist → Type 0
  IsRecorded c db (returns skipped, after) = after.statuses ≡ db.statuses
  IsRecorded c db (returns (finished_as status), after) =
      ((status ≡ succeeded) ⊎ (status ≡ review_required))
      × IsCompleted status (lookup c.source_sha256 after.statuses)
  IsRecorded c db (raises exc, after) =
      (after.statuses ≡ db.statuses) ⊎ HasFailed exc (lookup c.source_sha256 after.statuses)

  mark_failed-HasFailed :
      (c : ReceiptCandidate) (exc : BacklogError) (db : BacklogDatabase E)
      → HasFailed exc (lookup c.source_sha256 (mark_failed c exc db).statuses)
  unfolding mark_failed
  mark_failed-HasFailed c exc db =
      subst (HasFailed exc) (sym (lookup-same c.source_sha256 _ db.statuses))
        (failed_row-HasFailed exc (lookup c.source_sha256 db.statuses))

  mark_completed-IsCompleted :
      (c : ReceiptCandidate) (id : Option ℕ) (status : ProcessingStatus) (db : BacklogDatabase E)
      → IsCompleted status (
          lookup c.source_sha256
            (complete_request persist c id (mark_completed c status db)).statuses)
  unfolding mark_completed
  mark_completed-IsCompleted c none status db =
      subst (IsCompleted status) (sym (lookup-same c.source_sha256 _ db.statuses))
        (completed_row-IsCompleted status (lookup c.source_sha256 db.statuses))
  mark_completed-IsCompleted c (some id) status db =
      subst (IsCompleted status) (sym (lookup-same c.source_sha256 _ db.statuses))
        (completed_row-IsCompleted status (lookup c.source_sha256 db.statuses))

  run_attempt-IsCompleted :
      (c : ReceiptCandidate) (o : ProcessOptions) (a : Attempt) (db done : BacklogDatabase E)
      (status : ProcessingStatus)
      → run_attempt persist c o a db ≡ returns (status, done)
      → ((status ≡ succeeded) ⊎ (status ≡ review_required))
        × IsCompleted status (lookup c.source_sha256 done.statuses)
  unfolding run_attempt
  run_attempt-IsCompleted c o a db done status h =
      let (_, h) =
        require-inversion (not o.verify_source || a.sha_before == c.source_sha256) source_changed _
          h in
      let (rs, _, h) = bind-inversion a.parsed _ h in
      let (r, _, h) = bind-inversion (single rs) _ h in
      let (_, h) =
        require-inversion
          (not o.verify_source
            || (r.source_sha256 == c.source_sha256 && a.sha_after == c.source_sha256))
          source_changed _ h in
      let (evidence, _, h) = bind-inversion (persist o.refresh_ocr_cache r db.evidence) _ h in
      subst
        (λ out.
          ((out.0 ≡ succeeded) ⊎ (out.0 ≡ review_required))
          × IsCompleted out.0 (lookup c.source_sha256 out.1.statuses))
        (returns-inj h)
        (
          status_of_cases r,
          mark_completed-IsCompleted c o.reprocess_request_id (status_of r)
              (record db { evidence = evidence }),
        )

  settle_attempt-IsRecorded :
      (c : ReceiptCandidate) (o : ProcessOptions) (a : Attempt) (before db : BacklogDatabase E)
      (out : Result BacklogError (ProcessingStatus × BacklogDatabase E))
      → run_attempt persist c o a db ≡ out
      → IsRecorded c before (settle_attempt persist c db out)
  settle_attempt-IsRecorded c o a before db (returns (status, done)) h =
      run_attempt-IsCompleted c o a db done status h
  settle_attempt-IsRecorded c o a before db (raises exc) h = inr (mark_failed-HasFailed c exc db)

  IsRecorded-if :
      (c : ReceiptCandidate) (db : BacklogDatabase E) (test : Bool) (x y : CallResult persist)
      → IsRecorded c db x
      → IsRecorded c db y
      → IsRecorded c db (if test then x else y)
  IsRecorded-if c db true x y h k = h
  IsRecorded-if c db false x y h k = k

  process_claimed-IsRecorded :
      (c : ReceiptCandidate) (o : ProcessOptions) (a : Attempt) (before db : BacklogDatabase E)
      → db.statuses ≡ before.statuses
      → IsRecorded c before (process_claimed persist c o a db)
  unfolding process_claimed attempt_receipt
  process_claimed-IsRecorded c o a before db same =
      IsRecorded-if c before (not o.refresh_ocr_cache && is_completed c.source_sha256 db) _ _ same (
        IsRecorded-if c before
          (is_none o.reprocess_request_id
            && row_reached o.max_attempts (lookup c.source_sha256 db.statuses))
          _ _ (inr (mark_failed-HasFailed c retry_exhausted db))
          (settle_attempt-IsRecorded c o a before (mark_processing c db) _ refl))

  -- A call that skips a receipt leaves the rows as they are. One that returns a status leaves the row
  -- of the receipt with that status, completed and without an error, and the status is `succeeded` or
  -- `review_required`. One that raises leaves the rows as they are, or the row of the receipt failed
  -- and not completed, with the error that was raised.
  pub process_candidate-IsRecorded :
      (c : ReceiptCandidate) (o : ProcessOptions) (a : Attempt) (db : BacklogDatabase E)
      → IsRecorded c db (process_candidate persist c o a db)
  unfolding process_candidate process_request
  process_candidate-IsRecorded c o a db = by_request o.reprocess_request_id
    where
      by_request :
          (id : Option ℕ)
          → IsRecorded c db (elim id [
            | none ↦ process_claimed persist c o a db
            | some id ↦ process_request persist c o id a db
          ])
      by_request none = process_claimed-IsRecorded c o a db db refl
      by_request (some id) =
          let (rows, row) = insert_request c.source_sha256 id db.requests in
          IsRecorded-if c db (not o.refresh_ocr_cache) _ _ (inl refl) (
            IsRecorded-if c db row.completed _ _ refl (
              IsRecorded-if c db (reached o.max_attempts row.attempts) _ _ (inl refl) (
                process_claimed-IsRecorded c o a db
                  (record db { requests = update_request c.source_sha256 id raise_attempts rows })
                  refl)))
