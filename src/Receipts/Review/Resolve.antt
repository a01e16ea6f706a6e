-- ===== src/Receipts/Review/Resolve.antt =====
-- receipts/duplicate_review.py: the transaction of `resolve`.
pub mod Laws
pub mod Writes
pub mod Confirm
mod Examples
use home_budget_pipeline.Prelude.{
  ℕ, Bool, true, false, not, ◌&&◌, ◌||◌, Option, none, some, [], ◌∷◌, ◌++◌, leb, ltb, length,
  if◌then◌else◌,
}
use home_budget_pipeline.Prelude.Text.{Text, strip, truthy, ◌==ₜ◌}
use home_budget_pipeline.Prelude.Result.{Result, raises, returns, ◌>>=◌, ◌>>◌, require}
use home_budget_pipeline.Transactions.Allocations.{is_sha256}
use home_budget_pipeline.Receipts.Duplicates.{DuplicateScore}
use home_budget_pipeline.Receipts.Duplicates.Store.{
  DuplicateLink, DuplicateTables, DuplicateResolution, save_score, confirm_link, reject_link,
}
use home_budget_pipeline.Receipts.Review.{
  ReviewState, ReviewEvent, ReviewDatabase, ReviewRequest, ReviewOutcome, preview, applied,
  ReviewError, reviewer_required, expense_required, version_required, version_changed, from_store,
  read_state, is_resolved, repeat_decision, check_decision, reviewed_score,
}

abbrev pub is_positive : Option ℕ → Bool
is_positive none = false
is_positive (some n) = ltb 0 n

-- The checks before the connection is opened.
unfoldable pub check_request : ReviewRequest → Result ReviewError (Unit {0})
unfolding strip is_sha256
check_request q = do
  require (truthy (strip q.reason) && leb (length q.reason) 2000 && truthy (strip q.actor))
      reviewer_required
  require (q.reject || is_positive q.expense) expense_required
  require (not q.apply || is_sha256 q.expected_version) version_required

-- A rejection saves the score and rejects; a confirmation links.
unfoldable pub store_decision :
    Bool
    → Option ℕ
    → DuplicateScore
    → DuplicateTables
    → Result ReviewError (DuplicateResolution × DuplicateTables)
unfolding save_score reject_link confirm_link
store_decision true expense s t = do
  saved ← from_store (save_score s t)
  from_store (reject_link s saved)
store_decision false none s t = raises expense_required
store_decision false (some expense) s t = from_store (confirm_link s expense t)

-- A decision that is not pending.
abbrev pub resolved_only : Option DuplicateLink → Option DuplicateLink
resolved_only none = none
resolved_only (some d) = if is_resolved d.resolution_status then some d else none

module _ (version : ReviewState → Text) where
  abbrev pub event_of : ReviewRequest → ReviewEvent
  event_of q = record { is_rejection = q.reject; actor_user = q.actor; reason = strip q.reason }

  -- The writes of an applied decision.
  unfoldable pub apply_decision :
      ℕ
      → ℕ
      → ReviewRequest
      → ReviewState
      → ReviewDatabase
      → Result ReviewError (ReviewOutcome × ReviewDatabase)
  unfolding store_decision reviewed_score read_state strip
  apply_decision left right q before db = do
    require (version before ==ₜ q.expected_version) version_changed
    (resolution, tables) ← store_decision q.reject q.expense (reviewed_score before) db.tables
    after ← read_state left right tables
    returns
        (applied resolution, record db { tables = tables; events = db.events ++ event_of q ∷ [] })

  -- The body of `resolve` after `read_state`, by the resolved decision if there is one.
  unfoldable pub resolve_with :
      ℕ
      → ℕ
      → ReviewRequest
      → ReviewState
      → ReviewDatabase
      → Option DuplicateLink
      → Result ReviewError (ReviewOutcome × ReviewDatabase)
  unfolding repeat_decision check_decision apply_decision
  resolve_with left right q before db (some d) = do
    outcome ← repeat_decision q (version before) before d
    returns (outcome, db)
  resolve_with left right q before db none = do
    check_decision q before db.expenses
    (if q.apply
        then apply_decision left right q before db
        else returns (preview (version before) q.expense q.reject, db))

  unfoldable pub resolve_body :
      ℕ → ℕ → ReviewRequest → ReviewDatabase → Result ReviewError (ReviewOutcome × ReviewDatabase)
  unfolding check_request resolve_with read_state
  resolve_body left right q db = do
    check_request q
    before ← read_state left right db.tables
    resolve_with left right q before db (resolved_only before.decision)

  -- An exception rolls the transaction back.
  abbrev pub commit_or_rollback :
      ReviewDatabase
      → Result ReviewError (ReviewOutcome × ReviewDatabase)
      → Result ReviewError ReviewOutcome × ReviewDatabase
  commit_or_rollback db (raises e) = (raises e, db)
  commit_or_rollback db (returns (outcome, after)) = (returns outcome, after)

  -- `resolve`
  unfoldable pub resolve :
      ℕ → ℕ → ReviewRequest → ReviewDatabase → Result ReviewError ReviewOutcome × ReviewDatabase
  unfolding resolve_body
  resolve left right q db = commit_or_rollback db (resolve_body left right q db)
