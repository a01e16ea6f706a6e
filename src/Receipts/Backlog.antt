-- ===== src/Receipts/Backlog.antt =====
-- receipts/backlog_ingest.py: the attempts at a receipt file, and what the database keeps of them.
-- Digests and request ids are numbers. Of the times of a row, only whether it is completed is kept.
pub mod Process
pub mod Attempts
pub mod Requests
pub mod Bounded
pub mod Limit
pub mod Retry
pub mod Runs
pub mod Summary
mod Examples
use home_budget_pipeline.Prelude.{
  ℕ, ◌+◌, Bool, true, false, ◌&&◌, Option, none, some, List, [], ◌∷◌, leb, ◌==◌, if◌then◌else◌,
}
use home_budget_pipeline.Prelude.Text.{Text}
use home_budget_pipeline.Prelude.Table.{Table, lookup, upsert}

pub data ProcessingStatus : Type 0 where
  processing succeeded review_required failed : ProcessingStatus

-- The exceptions of an attempt. The last two are those of the parser and of the evidence store.
pub data BacklogError : Type 0 where
  retry_exhausted refresh_required source_changed : BacklogError
  not_one_receipt : ℕ → BacklogError
  parser_error persist_error : Text → BacklogError

-- A row of `receipt_processing_status`.
pub record StatusRow : Type 0 where
  pub status : ProcessingStatus
  pub attempts : ℕ
  pub last_error : Option BacklogError
  pub completed : Bool

-- A row of `receipt_reprocess_requests`.
pub record RequestRow : Type 0 where
  pub source_sha256 : ℕ
  pub request_id : ℕ
  pub attempts : ℕ
  pub completed : Bool

-- The tables; the evidence is that of another component.
pub record BacklogDatabase (E : Type 0) : Type 0 where
  pub receipts : Table Text
  pub statuses : Table StatusRow
  pub requests : List RequestRow
  pub evidence : E

pub record ReceiptCandidate : Type 0 where
  pub reference : Text
  pub source_sha256 : ℕ

abbrev pub is_completed_status : ProcessingStatus → Bool
is_completed_status succeeded = true
is_completed_status review_required = true
is_completed_status _ = false

abbrev pub is_completed_row : Option StatusRow → Bool
is_completed_row none = false
is_completed_row (some r) = is_completed_status r.status

abbrev pub is_request : ℕ → ℕ → RequestRow → Bool
is_request sha id r = r.source_sha256 == sha && r.request_id == id

unfoldable pub find_request : ℕ → ℕ → List RequestRow → Option RequestRow
find_request sha id [] = none
find_request sha id (r ∷ rows) = if is_request sha id r then some r else find_request sha id rows

unfoldable pub update_request :
    ℕ → ℕ → (RequestRow → RequestRow) → List RequestRow → List RequestRow
update_request sha id f [] = []
update_request sha id f (r ∷ rows) =
    let rest = update_request sha id f rows in if is_request sha id r then f r ∷ rest else r ∷ rest

-- `INSERT … ON CONFLICT DO NOTHING`, and the row that is read then.
unfoldable pub insert_request : ℕ → ℕ → List RequestRow → List RequestRow × RequestRow
unfolding find_request
insert_request sha id rows =
    let new : RequestRow = record {
      source_sha256 = sha;
      request_id = id;
      attempts = 0;
      completed = false;
    } in
    elim (find_request sha id rows) [ none ↦ (new ∷ rows, new) | some r ↦ (rows, r) ]

abbrev pub raise_attempts : RequestRow → RequestRow
raise_attempts r = record r { attempts = r.attempts + 1 }

abbrev pub complete_row : RequestRow → RequestRow
complete_row r = record r { completed = true }

abbrev pub reached : Option ℕ → ℕ → Bool
reached none attempts = false
reached (some max_attempts) attempts = leb max_attempts attempts

abbrev pub row_reached : Option ℕ → Option StatusRow → Bool
row_reached max_attempts none = false
row_reached max_attempts (some r) = reached max_attempts r.attempts

abbrev pub processing_row : Option StatusRow → StatusRow
processing_row none = record {
  status = processing;
  attempts = 1;
  last_error = none;
  completed = false;
}
processing_row (some r) = record {
  status = processing;
  attempts = r.attempts + 1;
  last_error = none;
  completed = false;
}

abbrev pub completed_row : ProcessingStatus → Option StatusRow → StatusRow
completed_row status none = record {
  status = status;
  attempts = 1;
  last_error = none;
  completed = true;
}
completed_row status (some r) = record r { status = status; last_error = none; completed = true }

abbrev pub failed_row : BacklogError → Option StatusRow → StatusRow
failed_row exc none = record {
  status = failed;
  attempts = 1;
  last_error = some exc;
  completed = false;
}
failed_row exc (some r) = record r { status = failed; last_error = some exc; completed = false }

module _ {E : Type 0} where
  -- `_completed_hashes`, of one digest.
  abbrev pub is_completed : ℕ → BacklogDatabase E → Bool
  is_completed sha db = is_completed_row (lookup sha db.statuses)

  -- `_upsert_source_identity`
  abbrev pub upsert_source_identity : ReceiptCandidate → BacklogDatabase E → BacklogDatabase E
  upsert_source_identity c db = record db {
    receipts = upsert c.source_sha256 c.reference db.receipts;
  }

  abbrev pub write_status :
      ReceiptCandidate → (Option StatusRow → StatusRow) → BacklogDatabase E → BacklogDatabase E
  write_status c f db = record (upsert_source_identity c db) {
    statuses = upsert c.source_sha256 (f (lookup c.source_sha256 db.statuses)) db.statuses;
  }

  unfoldable pub mark_processing : ReceiptCandidate → BacklogDatabase E → BacklogDatabase E
  unfolding upsert lookup
  mark_processing c db = write_status c processing_row db

  unfoldable pub mark_completed :
      ReceiptCandidate → ProcessingStatus → BacklogDatabase E → BacklogDatabase E
  unfolding upsert lookup
  mark_completed c status db = write_status c (completed_row status) db

  unfoldable pub mark_failed :
      ReceiptCandidate → BacklogError → BacklogDatabase E → BacklogDatabase E
  unfolding upsert lookup
  mark_failed c exc db = write_status c (failed_row exc) db
