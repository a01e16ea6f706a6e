-- ===== src/Receipts/Review.antt =====
-- receipts/duplicate_review.py: `resolve`, the human decision on a pair of receipts. The hash of what
-- a decision was based on is a parameter; the documents of the audit events are left out, and so is
-- a negative evidence or expense key.
pub mod Resolve
use home_budget_pipeline.Prelude.{
  ℕ, Bool, true, false, not, ◌&&◌, ◌||◌, Option, none, some, List, [], ◌∷◌, ◌++◌, leb, ◌==◌, any,
  is_some, if◌then◌else◌,
}
use home_budget_pipeline.Prelude.Text.{Text}
use home_budget_pipeline.Prelude.Table.{lookup}
use home_budget_pipeline.Prelude.Result.{Result, raises, returns, ◌>>=◌, ◌>>◌, require}
use home_budget_pipeline.Receipts.Duplicates.{
  review, ReceiptEvidenceFingerprint, human_review_of_low_score_pair, DuplicateScore,
}
use home_budget_pipeline.Receipts.Duplicates.Score.{score}
use home_budget_pipeline.Receipts.Duplicates.Store.{
  StoreError, LinkStatus, pending, rejected, DuplicateLink, EvidenceRow, DuplicateTables,
  DuplicateResolution, find_link, is_distinct,
}

-- What `read_state` returns: the evidence in the order of the keys, and the decision.
pub record ReviewState : Type 0 where
  pub first_id : ℕ
  pub second_id : ℕ
  pub first : EvidenceRow
  pub second : EvidenceRow
  pub decision : Option DuplicateLink

pub record ReviewEvent : Type 0 where
  pub is_rejection : Bool
  pub actor_user : Text
  pub reason : Text

pub record ReviewDatabase : Type 0 where
  pub tables : DuplicateTables
  pub expenses : List ℕ
  pub events : List ReviewEvent

-- The arguments of `resolve` after the pair.
pub record ReviewRequest : Type 0 where
  pub expense : Option ℕ
  pub reject : Bool
  pub reason : Text
  pub actor : Text
  pub expected_version : Text
  pub apply : Bool

pub data ReviewOutcome : Type 0 where
  unchanged : Text → Option ℕ → ReviewOutcome
  preview : Text → Option ℕ → Bool → ReviewOutcome
  applied : DuplicateResolution → ReviewOutcome

pub data ReviewError : Type 0 where
  reviewer_required expense_required version_required different_ids_required evidence_not_found
        links_changed already_resolved no_reassignment expense_not_found already_shared
        version_changed :
      ReviewError
  store_error : StoreError → ReviewError

-- An error of the store passes through.
abbrev pub from_store {ℓ} : {A : Type ℓ} → Result StoreError A → Result ReviewError A
from_store (raises e) = raises (store_error e)
from_store (returns a) = returns a

-- `fingerprint`
unfoldable pub fingerprint : ℕ → EvidenceRow → ReceiptEvidenceFingerprint
fingerprint id row = record {
  evidence_id = id;
  source_type = row.evidence_type;
  merchant = row.merchant;
  transaction_datetime = row.transaction_datetime;
  total = row.total;
  receipt_id = row.receipt_id;
  order_id = none;
  card_last4 = row.card_last4;
  items = [];
}

abbrev pub both_found :
    ℕ
    → ℕ
    → Option EvidenceRow
    → Option EvidenceRow
    → Option DuplicateLink
    → Result ReviewError ReviewState
both_found left right (some a) (some b) decision =
    returns
      (record { first_id = left; second_id = right; first = a; second = b; decision = decision })
both_found left right _ _ decision = raises evidence_not_found

-- `read_state` for a pair that is sorted.
unfoldable pub read_sorted : ℕ → ℕ → DuplicateTables → Result ReviewError ReviewState
unfolding lookup find_link
read_sorted low high t = do
  require (not (leb low 0 || low == high)) different_ids_required
  both_found low high (lookup low t.evidence) (lookup high t.evidence) (find_link low high t.links)

-- `read_state`
unfoldable pub read_state : ℕ → ℕ → DuplicateTables → Result ReviewError ReviewState
unfolding read_sorted
read_state left right t =
    if leb left right then read_sorted left right t else read_sorted right left t

abbrev pub same_expense : Option ℕ → Option ℕ → Bool
same_expense none none = true
same_expense (some a) (some b) = a == b
same_expense _ _ = false

abbrev pub is_resolved : LinkStatus → Bool
is_resolved pending = false
is_resolved _ = true

abbrev pub is_rejected : LinkStatus → Bool
is_rejected rejected = true
is_rejected _ = false

-- The saved decision is the requested one.
unfoldable pub same_decision : ReviewRequest → DuplicateLink → Bool
same_decision q d =
    (q.reject && is_rejected d.resolution_status)
    || (not q.reject
        && same_expense d.canonical_expense_pk q.expense
        && not (is_rejected d.resolution_status))

-- The answer for a pair that is resolved.
unfoldable pub repeat_decision :
    ReviewRequest → Text → ReviewState → DuplicateLink → Result ReviewError ReviewOutcome
unfolding same_decision
repeat_decision q current before d = do
  require (same_decision q d) already_resolved
  require
      (q.reject
        || (same_expense before.first.expense_pk q.expense
            && same_expense before.second.expense_pk q.expense))
      links_changed
  returns (unchanged current d.canonical_expense_pk)

abbrev pub free_for : Option ℕ → Option ℕ → Bool
free_for expense link = not (is_some link) || same_expense link expense

-- `expense in links` and no other expense is linked; the expense exists.
unfoldable pub check_confirmation : Option ℕ → ReviewState → List ℕ → Result ReviewError (Unit {0})
unfolding any
check_confirmation expense before expenses = do
  require
      ((same_expense before.first.expense_pk expense
          || same_expense before.second.expense_pk expense)
        && free_for expense before.first.expense_pk
        && free_for expense before.second.expense_pk)
      no_reassignment
  require (any (λ e. same_expense (some e) expense) expenses) expense_not_found

-- Documents of one expense cannot be rejected.
unfoldable pub check_rejection : ReviewState → Result ReviewError (Unit {0})
check_rejection before =
    require
      (not (
        is_some before.first.expense_pk
        && same_expense before.first.expense_pk before.second.expense_pk))
      already_shared

unfoldable pub check_decision : ReviewRequest → ReviewState → List ℕ → Result ReviewError (Unit {0})
unfolding check_confirmation check_rejection
check_decision q before expenses =
    if q.reject then check_rejection before else check_confirmation q.expense before expenses

-- A distinct pair becomes a review, with the reason that says so.
unfoldable pub override_low_score : DuplicateScore → DuplicateScore
override_low_score s =
    if is_distinct s.disposition
    then record s {
      disposition = review;
      reasons = s.reasons ++ human_review_of_low_score_pair ∷ [];
    }
    else s

unfoldable pub reviewed_score : ReviewState → DuplicateScore
unfolding score fingerprint override_low_score
reviewed_score before =
    override_low_score (
      score (fingerprint before.first_id before.first) (fingerprint before.second_id before.second))
