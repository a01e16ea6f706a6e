-- ===== src/Receipts/Review/Resolve/Examples.antt =====
-- Runs of `resolve`, and instances of its theorems.
use home_budget_pipeline.Prelude.{
  ◌≡◌, refl, ◌≢◌, true, false, none, some, [], ◌∷◌, any, all, select,
}
use home_budget_pipeline.Prelude.Int.{pos, ◌-ℤ◌}
use home_budget_pipeline.Prelude.Sets.{member}
use home_budget_pipeline.Prelude.Table.{lookup, update}
use home_budget_pipeline.Prelude.Text.{
  Text, codes, strip, drop_spaces, drop_trailing, is_space, lower, split, split_from, join,
}
use home_budget_pipeline.Prelude.Words.{spaced, spaced_from, letters}
use home_budget_pipeline.Prelude.Result.{returns}
use home_budget_pipeline.Transactions.Allocations.{is_sha256}
use home_budget_pipeline.Receipts.Duplicates.{
  norm_id, norm_text, item_similarity_of, review, human_review_of_low_score_pair, total_exact,
}
use home_budget_pipeline.Receipts.Duplicates.Score.{
  identifiers, identifiers_meet, merchants_match, nearness, agreement, cards_match, item_overlap,
  compare_receipts, correlated, score_of_findings, reasons_of_findings, disposition_for, score,
}
use home_budget_pipeline.Receipts.Duplicates.Store.{
  DuplicateLink, DuplicateResolution, EvidenceRow, find_link, upsert_link, ordered_pair,
  confirm_link, resolve_link, confirmed, pending, manual_review,
}
use home_budget_pipeline.Receipts.Review.{
  ReviewState, ReviewDatabase, ReviewRequest, applied, read_sorted, read_state, check_confirmation,
  check_decision, override_low_score, reviewed_score, fingerprint,
}
use home_budget_pipeline.Receipts.Review.Resolve.{
  check_request, store_decision, apply_decision, resolve_with, resolve_body, resolve,
}
use home_budget_pipeline.Receipts.Review.Resolve.Laws.{resolved_pair_stays}
use home_budget_pipeline.Receipts.Review.Resolve.Confirm.{IsConfirmed, confirmation_links_pair}
use home_budget_pipeline.Receipts.Review.Resolve.Writes.{IsFree}

-- Every state hashes to 64 zeros.
abbrev zeros : Text
zeros = codes "0000000000000000000000000000000000000000000000000000000000000000"

abbrev constant_version : ReviewState → Text
constant_version before = zeros

abbrev scan : EvidenceRow
scan = record {
  evidence_type = codes "scanned";
  merchant = none;
  transaction_datetime = none;
  total = some (pos 1999);
  receipt_id = none;
  card_last4 = none;
  expense_pk = some 5;
}

abbrev email : EvidenceRow
email = record scan { evidence_type = codes "electronic"; expense_pk = none }

abbrev database : ReviewDatabase
database = record {
  tables = record { evidence = (2, scan) ∷ (3, email) ∷ []; links = [] };
  expenses = 5 ∷ [];
  events = [];
}

abbrev confirmation : ReviewRequest
confirmation = record {
  expense = some 5;
  reject = false;
  reason = codes "same";
  actor = codes "me";
  expected_version = zeros;
  apply = true;
}

abbrev look : ReviewRequest
look = record confirmation { apply = false }

abbrev confirmed_link : DuplicateLink
confirmed_link = record {
  left_evidence_id = 2;
  right_evidence_id = 3;
  canonical_expense_pk = some 5;
  score = 20;
  disposition = review;
  reasons = total_exact ∷ human_review_of_low_score_pair ∷ [];
  item_similarity = record { common_keys = 0; all_keys = 1 };
  resolution_status = confirmed;
  resolution_source = some manual_review;
}

abbrev after : ReviewDatabase
after = record {
  tables = record {
    evidence = (2, scan) ∷ (3, record email { expense_pk = some 5 }) ∷ [];
    links = confirmed_link ∷ [];
  };
  expenses = 5 ∷ [];
  events = record { is_rejection = false; actor_user = codes "me"; reason = codes "same" } ∷ [];
}

abbrev resolution : DuplicateResolution
resolution = record {
  left_evidence_id = 2;
  right_evidence_id = 3;
  canonical_expense_pk = some 5;
  resolution_status = confirmed;
}

confirm_run :
    resolve constant_version 3 2 confirmation database ≡ (returns (applied resolution), after)
unfolding resolve resolve_body resolve_with apply_decision store_decision check_request
    check_decision check_confirmation read_state read_sorted lookup update find_link upsert_link
    confirm_link resolve_link ordered_pair reviewed_score override_low_score fingerprint score
    compare_receipts identifiers identifiers_meet merchants_match nearness agreement cards_match
    item_overlap correlated score_of_findings reasons_of_findings disposition_for item_similarity_of
    norm_id norm_text letters spaced spaced_from lower split split_from join strip drop_spaces
    drop_trailing is_space is_sha256 member any all select ◌-ℤ◌
confirm_run = refl

abbrev decided : ReviewState
decided = record {
  first_id = 2;
  second_id = 3;
  first = scan;
  second = record email { expense_pk = some 5 };
  decision = some confirmed_link;
}

decided_read : read_state 3 2 after.tables ≡ returns decided
unfolding read_state read_sorted lookup find_link
decided_read = refl

is_final : confirmed ≢ pending
is_final e = cc

resolved_pair_stays_example : (resolve constant_version 3 2 confirmation after).1 ≡ after
resolved_pair_stays_example =
    resolved_pair_stays constant_version 3 2 confirmation after decided confirmed_link decided_read
      refl is_final

confirmation_links_pair_example :
    (before : ReviewState) × (read_state 3 2 database.tables ≡ returns before)
    × (constant_version before ≡ zeros)
    × IsFree 5 before
    × IsConfirmed constant_version 5 before database.tables after.tables
confirmation_links_pair_example =
    confirmation_links_pair constant_version 3 2 confirmation database after 5 resolution refl refl
      confirm_run
