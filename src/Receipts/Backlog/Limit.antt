-- ===== src/Receipts/Backlog/Limit.antt =====
-- The limit on the attempts at a receipt.
use home_budget_pipeline.Receipts.Backlog.Requests.{
  requested, AreWithin, AreWithin-raised, AreWithin-completed, requested-completed,
  requested-raised_le, requested-raised, inserted,
}
use home_budget_pipeline.Prelude.{
  ◌+◌, ◌<◌, List, is_none, ℕ, ◌≤◌, Bool, true, false, not, ◌&&◌, ◌||◌, Option, none, some, ◌==◌,
  if◌then◌else◌, ◌≡◌, refl, sym, subst, inl, inr, Bool-cases, arith,
}
use home_budget_pipeline.Prelude.Table.{lookup}
use home_budget_pipeline.Prelude.Result.{
  Result, raises, returns, bind-inversion, require-inversion, returns-inj,
}
use home_budget_pipeline.Receipts.Backlog.{
  RequestRow, find_request, update_request, insert_request, raise_attempts, reached,
  ProcessingStatus, BacklogError, retry_exhausted, source_changed, BacklogDatabase,
  ReceiptCandidate, is_completed, row_reached, mark_processing, mark_completed, mark_failed,
}
use home_budget_pipeline.Receipts.Backlog.Process.{
  CallResult, ParsedReceipt, Attempt, ProcessOptions, single, status_of, run_attempt,
  settle_attempt, attempt_receipt, complete_request, process_request, process_claimed,
  process_candidate,
}
use home_budget_pipeline.Receipts.Backlog.Bounded.{
  IsWithin, IsBounded, IsLimited, IsWithin-le, IsBounded-upsert, failed_row-le, completed_row-le,
  HasRoom, processing_row-le, room_below, room_requested, own_limit, attempt_left,
}

module _ {E : Type 0} (persist : Bool → ParsedReceipt → E → Result BacklogError E) (n : ℕ)
    (one : 1 ≤ n) (c : ReceiptCandidate) where
  at_least_one : (m : ℕ) → 1 ≤ n + m
  at_least_one m = omega (arith, one)

  mark_failed-IsLimited :
      (exc : BacklogError) (db : BacklogDatabase E)
      → IsLimited n db
      → IsLimited n (mark_failed c exc db)
  unfolding mark_failed
  mark_failed-IsLimited exc db (within, h) = (
    within,
    IsBounded-upsert n c.source_sha256 _ db.requests db.statuses
        (failed_row-le _ exc (lookup c.source_sha256 db.statuses) (at_least_one _)
          (h c.source_sha256))
        h,
  )

  mark_completed-IsLimited :
      (status : ProcessingStatus) (db : BacklogDatabase E)
      → IsLimited n db
      → IsLimited n (mark_completed c status db)
  unfolding mark_completed
  mark_completed-IsLimited status db (within, h) = (
    within,
    IsBounded-upsert n c.source_sha256 _ db.requests db.statuses
        (completed_row-le _ status (lookup c.source_sha256 db.statuses) (at_least_one _)
          (h c.source_sha256))
        h,
  )

  complete_request-IsLimited :
      (request : Option ℕ) (db : BacklogDatabase E)
      → IsLimited n db
      → IsLimited n (complete_request persist c request db)
  complete_request-IsLimited none db h = h
  complete_request-IsLimited (some id) db (within, h) = (
    AreWithin-completed n c.source_sha256 id db.requests within,
    λ sha.
        subst (λ m. IsWithin (n + m) (lookup sha db.statuses))
          (sym (requested-completed c.source_sha256 id sha db.requests)) (h sha),
  )

  run_attempt-IsLimited :
      (o : ProcessOptions) (a : Attempt) (db done : BacklogDatabase E) (status : ProcessingStatus)
      → IsLimited n db
      → run_attempt persist c o a db ≡ returns (status, done)
      → IsLimited n done
  unfolding run_attempt
  run_attempt-IsLimited o a db done status limited h =
      let (_, h) =
        require-inversion (not o.verify_source || a.sha_before == c.source_sha256) source_changed _
          h in
      let (rs, _, h) = bind-inversion a.parsed _ h in
      let (r, _, h) = bind-inversion (single rs) _ h in
      let (_, h) =
        require-inversion
          (not o.verify_source
            || (r.source_sha256 == c.source_sha256 && a.sha_after == c.source_sha256))
          source_changed _ h in
      let (evidence, _, h) = bind-inversion (persist o.refresh_ocr_cache r db.evidence) _ h in
      let kept : BacklogDatabase E = record db { evidence = evidence } in
      subst (λ out. IsLimited n out.1) (returns-inj h)
        (complete_request-IsLimited o.reprocess_request_id (mark_completed c (status_of r) kept)
          (mark_completed-IsLimited (status_of r) kept limited))

  settle_attempt-IsLimited :
      (o : ProcessOptions) (a : Attempt) (db : BacklogDatabase E)
      (out : Result BacklogError (ProcessingStatus × BacklogDatabase E))
      → IsLimited n db
      → run_attempt persist c o a db ≡ out
      → IsLimited n (settle_attempt persist c db out).1
  settle_attempt-IsLimited o a db (returns (status, done)) limited h =
      run_attempt-IsLimited o a db done status limited h
  settle_attempt-IsLimited o a db (raises exc) limited h = mark_failed-IsLimited exc db limited

  attempt_receipt-IsLimited :
      (o : ProcessOptions) (a : Attempt) (db : BacklogDatabase E)
      → IsLimited n db
      → HasRoom (n + requested c.source_sha256 db.requests) (lookup c.source_sha256 db.statuses)
      → IsLimited n (attempt_receipt persist c o a db).1
  unfolding attempt_receipt mark_processing
  attempt_receipt-IsLimited o a db (within, bounded) room =
      settle_attempt-IsLimited o a (mark_processing c db) _
        (
          within,
          IsBounded-upsert n c.source_sha256 _ db.requests db.statuses
              (processing_row-le _ (lookup c.source_sha256 db.statuses) room) bounded,
        )
        refl

  IsLimited-if :
      (b : Bool) (x y : CallResult persist)
      → (b ≡ true → IsLimited n x.1)
      → (b ≡ false → IsLimited n y.1)
      → IsLimited n (if b then x else y).1
  IsLimited-if true x y h k = h refl
  IsLimited-if false x y h k = k refl

  -- The receipt's own checks, where a request has made room or the limit is that of the options.
  process_claimed-IsLimited :
      (o : ProcessOptions) (a : Attempt) (db : BacklogDatabase E)
      → IsLimited n db
      → ((is_none o.reprocess_request_id
              && row_reached o.max_attempts (lookup c.source_sha256 db.statuses))
            ≡ false
          → HasRoom
              (n + requested c.source_sha256 db.requests)
              (lookup c.source_sha256 db.statuses))
      → IsLimited n (process_claimed persist c o a db).1
  unfolding process_claimed
  process_claimed-IsLimited o a db limited room =
      elim (Bool-cases (not o.refresh_ocr_cache && is_completed c.source_sha256 db)) [
        | inl e ↦ rw e limited
        | inr e ↦
            elim (Bool-cases (
              is_none o.reprocess_request_id
              && row_reached o.max_attempts (lookup c.source_sha256 db.statuses))) [
                | inl r ↦ rw e (rw r (mark_failed-IsLimited retry_exhausted db limited))
                | inr r ↦ rw e (rw r (attempt_receipt-IsLimited o a db limited (room r)))
              ]
      ]

  -- Counting an attempt of a request makes room for one of its receipt.
  raised-IsLimited :
      (id : ℕ) (row : RequestRow) (rows : List RequestRow) (db : BacklogDatabase E)
      → find_request c.source_sha256 id rows ≡ some row
      → row.attempts < n
      → AreWithin n rows
      → IsBounded n rows db.statuses
      → IsLimited n (record db { requests = update_request c.source_sha256 id raise_attempts rows })
        × HasRoom
            (n + requested c.source_sha256 (update_request c.source_sha256 id raise_attempts rows))
            (lookup c.source_sha256 db.statuses)
  raised-IsLimited id row rows db found below within bounded =
      let sha = c.source_sha256 in
      (
        (
          AreWithin-raised n sha id row rows found below within,
          λ k.
              IsWithin-le (n + requested k rows) _ (lookup k db.statuses)
                (omega (arith, requested-raised_le sha id k rows)) (bounded k),
        ),
        room_requested (n + requested sha rows) _ (lookup sha db.statuses) (at_least_one _)
            (bounded sha) (omega (arith, requested-raised sha id row rows found)),
      )

  process_request-IsLimited :
      (o : ProcessOptions) (id : ℕ) (a : Attempt) (db : BacklogDatabase E)
      → o.max_attempts ≡ some n
      → o.reprocess_request_id ≡ some id
      → IsLimited n db
      → IsLimited n (process_request persist c o id a db).1
  unfolding process_request
  process_request-IsLimited o id a db limit request (within, bounded) =
      let sha = c.source_sha256 in
      let rows = (insert_request sha id db.requests).0 in
      let row = (insert_request sha id db.requests).1 in
      let (found, kept, same) = inserted n sha id db.requests within in
      let bound : IsBounded n rows db.statuses =
        λ k. subst (λ m. IsWithin (n + m) (lookup k db.statuses)) (sym (same k)) (bounded k) in
      IsLimited-if (not o.refresh_ocr_cache) _ _ (λ _. (within, bounded))
        (λ _.
          IsLimited-if row.completed _ _ (λ _. (kept, bound))
            (λ _.
              IsLimited-if (reached o.max_attempts row.attempts) _ _ (λ _. (within, bounded))
                (λ open_one.
                  let below =
                    attempt_left n row.attempts
                      (subst (λ l. reached l row.attempts ≡ false) limit open_one) in
                  let (limited, room) = raised-IsLimited id row rows db found below kept bound in
                  process_claimed-IsLimited o a
                    (record db { requests = update_request sha id raise_attempts rows }) limited
                    (λ _. room))))

  abbrev chosen_call : ProcessOptions → Attempt → BacklogDatabase E → Option ℕ → CallResult persist
  chosen_call o a db none = process_claimed persist c o a db
  chosen_call o a db (some id) = process_request persist c o id a db

  -- Work with a limit of n attempts, n at least 1, of the queue or of a reprocess request, keeps the
  -- limit, whether the receipt is skipped, refused, done or fails: no request counts more than n
  -- attempts, and no receipt more than n besides those that its requests have counted.
  pub process_candidate-IsLimited :
      (o : ProcessOptions) (a : Attempt) (db : BacklogDatabase E)
      → o.max_attempts ≡ some n
      → IsLimited n db
      → IsLimited n (process_candidate persist c o a db).1
  unfolding process_candidate
  process_candidate-IsLimited o a db limit limited = by_request o.reprocess_request_id refl
    where
      by_request :
          (request : Option ℕ)
          → o.reprocess_request_id ≡ request
          → IsLimited n (chosen_call o a db request).1
      by_request none e = process_claimed-IsLimited o a db limited (λ r.
          room_below n _ (lookup c.source_sha256 db.statuses) one
            (own_limit o (lookup c.source_sha256 db.statuses) n limit e r))
      by_request (some id) e = process_request-IsLimited o id a db limit e limited
