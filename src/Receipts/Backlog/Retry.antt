-- ===== src/Receipts/Backlog/Retry.antt =====
-- receipts/backlog_ingest.py: `reset_receipt_for_retry`, in one transaction with the release of the
-- intake's reservation.
pub mod Unblocked
use home_budget_pipeline.Prelude.{
  ℕ, Bool, true, false, Option, none, some, List, [], ◌∷◌, if◌then◌else◌,
}
use home_budget_pipeline.Prelude.Text.{Text, ◌==ₜ◌}
use home_budget_pipeline.Prelude.Table.{Table, lookup, upsert}
use home_budget_pipeline.Prelude.Result.{Result, raises, returns, ◌>>=◌, ◌>>◌, require}
use home_budget_pipeline.Receipts.Intake.{IntakeEvent, release}
use home_budget_pipeline.Receipts.Backlog.{
  ProcessingStatus, processing, failed, StatusRow, BacklogDatabase,
}

-- The errors; the last names the status of a receipt that is done.
pub data RetryError : Type 0 where
  no_receipt several_receipts being_processed no_attempts : RetryError
  already_completed : ProcessingStatus → RetryError

-- What the call returns.
pub record RetryReady : Type 0 where
  pub source_sha256 : ℕ
  pub previous_status : ProcessingStatus
  pub previous_attempts : ℕ

-- `WHERE source_reference = …`
unfoldable pub matching : Text → Table Text → List ℕ
matching reference [] = []
matching reference ((sha, r) ∷ rows) =
    let rest = matching reference rows in if r ==ₜ reference then sha ∷ rest else rest

abbrev pub one_match : List ℕ → Result RetryError ℕ
one_match [] = raises no_receipt
one_match (sha ∷ []) = returns sha
one_match (sha ∷ _ ∷ _) = raises several_receipts

abbrev pub attempted_row : Option StatusRow → Result RetryError StatusRow
attempted_row none = raises no_attempts
attempted_row (some r) = returns r

abbrev pub is_unfinished : ProcessingStatus → Bool
is_unfinished failed = true
is_unfinished processing = true
is_unfinished _ = false

abbrev pub reset_row : StatusRow
reset_row = record { status = failed; attempts = 0; last_error = none; completed = false }

module _ {E : Type 0} where
  -- The transaction; `unlocked` tells that no processor holds the receipt, `now` is its time.
  unfoldable pub reset_transaction :
      Text
      → (ℕ → Bool)
      → ℕ
      → BacklogDatabase E
      → List IntakeEvent
      → Result RetryError (RetryReady × (BacklogDatabase E × List IntakeEvent))
  unfolding matching lookup upsert
  reset_transaction reference unlocked now db events = do
    sha ← one_match (matching reference db.receipts)
    require (unlocked sha) being_processed
    row ← attempted_row (lookup sha db.statuses)
    require (is_unfinished row.status) (already_completed row.status)
    returns (
      record {
        source_sha256 = sha;
        previous_status = row.status;
        previous_attempts = row.attempts;
      },
      (record db { statuses = upsert sha reset_row db.statuses }, release sha reference now events),
    )

  abbrev pub or_rollback :
      BacklogDatabase E × List IntakeEvent
      → Result RetryError (RetryReady × (BacklogDatabase E × List IntakeEvent))
      → Result RetryError RetryReady × (BacklogDatabase E × List IntakeEvent)
  or_rollback before (raises exc) = (raises exc, before)
  or_rollback before (returns (ready, after)) = (returns ready, after)

  -- `reset_receipt_for_retry`: an error rolls the transaction back.
  unfoldable pub reset_receipt_for_retry :
      Text
      → (ℕ → Bool)
      → ℕ
      → BacklogDatabase E
      → List IntakeEvent
      → Result RetryError RetryReady × (BacklogDatabase E × List IntakeEvent)
  unfolding reset_transaction
  reset_receipt_for_retry reference unlocked now db events =
      or_rollback (db, events) (reset_transaction reference unlocked now db events)
