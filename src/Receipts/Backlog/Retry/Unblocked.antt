-- ===== src/Receipts/Backlog/Retry/Unblocked.antt =====
-- What a retry makes possible again.
use home_budget_pipeline.Prelude.{
  ℕ, suc, leb, Bool, true, false, Option, none, some, List, if◌then◌else◌, ◌≡◌, refl, ap, sym, ◌∙◌,
  subst, arith, ==_refl, ◌==◌,
}
use home_budget_pipeline.Prelude.Text.{Text}
use home_budget_pipeline.Prelude.Table.{lookup, upsert, lookup-upsert}
use home_budget_pipeline.Prelude.Result.{
  Result, raises, returns, bind-inversion, require-inversion, returns-inj,
}
use home_budget_pipeline.Receipts.Intake.{IntakeEvent, release, is_held}
use home_budget_pipeline.Receipts.Intake.Reserved.{IsEarlier, released_is_free}
use home_budget_pipeline.Receipts.Backlog.{StatusRow, BacklogDatabase, row_reached, is_completed}
use home_budget_pipeline.Receipts.Backlog.Retry.{
  RetryError, RetryReady, or_rollback, being_processed, already_completed, matching, one_match,
  attempted_row, is_unfinished, reset_row, reset_transaction, reset_receipt_for_retry,
}

zero_below : (n : ℕ) → leb (suc n) 0 ≡ false
zero_below n = ground arith

attempted_row-inversion :
    (o : Option StatusRow) (r : StatusRow) → attempted_row o ≡ returns r → o ≡ some r
attempted_row-inversion none r h = cc
attempted_row-inversion (some q) r h = ap some (returns-inj h)

module _ {E : Type 0} where
  -- The state in which a reset of the receipt leaves the database.
  abbrev pub IsReset :
      ℕ
      → Text
      → ℕ
      → BacklogDatabase E
      → List IntakeEvent
      → BacklogDatabase E × List IntakeEvent
      → Type 0
  IsReset sha reference now db events after =
      ((r : StatusRow) × (lookup sha db.statuses ≡ some r) × (is_unfinished r.status ≡ true))
      × (after ≡ (
        record db { statuses = upsert sha reset_row db.statuses },
        release sha reference now events,
      ))

  transaction-inversion :
      (reference : Text) (unlocked : ℕ → Bool) (now : ℕ) (db : BacklogDatabase E)
      (events : List IntakeEvent) (ready : RetryReady)
      (after : BacklogDatabase E × List IntakeEvent)
      → reset_transaction reference unlocked now db events ≡ returns (ready, after)
      → IsReset ready.source_sha256 reference now db events after
  unfolding reset_transaction
  transaction-inversion reference unlocked now db events ready after h =
      let (sha, _, h) = bind-inversion (one_match (matching reference db.receipts)) _ h in
      let (_, h) = require-inversion (unlocked sha) being_processed _ h in
      let (row, read, h) = bind-inversion (attempted_row (lookup sha db.statuses)) _ h in
      let (unfinished, h) =
        require-inversion (is_unfinished row.status) (already_completed row.status) _ h in
      subst (λ out. IsReset out.0.source_sha256 reference now db events out.1) (returns-inj h)
        ((row, attempted_row-inversion (lookup sha db.statuses) row read, unfinished), refl)

  reset-inversion :
      (before after : BacklogDatabase E × List IntakeEvent)
      (out : Result RetryError (RetryReady × (BacklogDatabase E × List IntakeEvent)))
      (ready : RetryReady)
      → (or_rollback before out).0 ≡ returns ready
      → (or_rollback before out).1 ≡ after
      → out ≡ returns (ready, after)
  reset-inversion before after (raises exc) ready h k = cc
  reset-inversion before after (returns (r, a)) ready h k = λ i. returns (returns-inj h i, k i)

  -- A reset that returns found the receipt failed or left in the middle, not completed. After it the
  -- receipt is not completed, the next attempt is below every limit that is not 0, a message of the
  -- receipt that was published before is not held back, and no other receipt's row has changed.
  pub reset_unblocks :
      (reference : Text) (unlocked : ℕ → Bool) (now : ℕ) (db : BacklogDatabase E)
      (events : List IntakeEvent) (ready : RetryReady)
      (after : BacklogDatabase E × List IntakeEvent) (id queue : Text) (limit : ℕ)
      → (reset_receipt_for_retry reference unlocked now db events).0 ≡ returns ready
      → (reset_receipt_for_retry reference unlocked now db events).1 ≡ after
      → IsEarlier id ready.source_sha256 now events
      → ((r : StatusRow) × (lookup ready.source_sha256 db.statuses ≡ some r)
          × (is_unfinished r.status ≡ true))
        × (is_completed ready.source_sha256 after.0 ≡ false)
        × (row_reached (some (suc limit)) (lookup ready.source_sha256 after.0.statuses) ≡ false)
        × (is_held after.1 queue id ≡ false)
        × ((j : ℕ)
            → lookup j after.0.statuses
              ≡ (if ready.source_sha256 == j then some reset_row else lookup j db.statuses))
  unfolding reset_receipt_for_retry
  reset_unblocks reference unlocked now db events ready after id queue limit h k early =
      let sha = ready.source_sha256 in
      let (found, after_is) = transaction-inversion reference unlocked now db events ready after (
        reset-inversion (db, events) after (reset_transaction reference unlocked now db events)
          ready h k) in
      let own : lookup sha (upsert sha reset_row db.statuses) ≡ some reset_row =
        lookup-upsert sha sha reset_row db.statuses ∙ (rw (==_refl sha) refl) in
      subst
        (λ after.
          ((r : StatusRow) × (lookup sha db.statuses ≡ some r) × (is_unfinished r.status ≡ true))
          × (is_completed sha after.0 ≡ false)
          × (row_reached (some (suc limit)) (lookup sha after.0.statuses) ≡ false)
          × (is_held after.1 queue id ≡ false)
          × ((j : ℕ)
              → lookup j after.0.statuses
                ≡ (if sha == j then some reset_row else lookup j db.statuses)))
        (sym after_is)
        (
          found,
          rw own refl,
          rw own (zero_below limit),
          released_is_free id queue reference sha now events early,
          (λ j. lookup-upsert sha j reset_row db.statuses),
        )
