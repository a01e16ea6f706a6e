-- ===== src/Receipts/Duplicates/Store.antt =====
-- receipts/deduplication_store.py: the table of the duplicate decisions, and the links of evidence to
-- expenses. The times of the writes are left out.
pub mod Decisions
mod Examples
use home_budget_pipeline.Prelude.{
  ℕ, Bool, true, false, not, ◌&&◌, Option, none, some, List, [], ◌∷◌, leb, ◌==◌, if◌then◌else◌,
}
use home_budget_pipeline.Prelude.Int.{ℤ}
use home_budget_pipeline.Prelude.Text.{Text}
use home_budget_pipeline.Prelude.Table.{Table, update}
use home_budget_pipeline.Prelude.Result.{Result, returns, ◌>>=◌, ◌>>◌, require}
use home_budget_pipeline.Receipts.Duplicates.{
  DuplicateDisposition, exact, distinct_receipts, DuplicateReason, Similarity, DuplicateScore,
}

-- `resolution_status`
pub data LinkStatus : Type 0 where
  pending auto_linked confirmed rejected : LinkStatus

-- `resolution_source`
pub data LinkSource : Type 0 where
  deduplication_exact manual_review : LinkSource

-- A row of budget.receipt_duplicate_links.
pub record DuplicateLink : Type 0 where
  pub left_evidence_id : ℕ
  pub right_evidence_id : ℕ
  pub canonical_expense_pk : Option ℕ
  pub score : ℕ
  pub disposition : DuplicateDisposition
  pub reasons : List DuplicateReason
  pub item_similarity : Similarity
  pub resolution_status : LinkStatus
  pub resolution_source : Option LinkSource

-- A row of budget.receipt_evidence.
pub record EvidenceRow : Type 0 where
  pub evidence_type : Text
  pub merchant : Option Text
  pub transaction_datetime : Option ℕ
  pub total : Option ℤ
  pub receipt_id : Option Text
  pub card_last4 : Option Text
  pub expense_pk : Option ℕ

pub record DuplicateTables : Type 0 where
  pub evidence : Table EvidenceRow
  pub links : List DuplicateLink

pub record DuplicateResolution : Type 0 where
  pub left_evidence_id : ℕ
  pub right_evidence_id : ℕ
  pub canonical_expense_pk : Option ℕ
  pub resolution_status : LinkStatus

-- The `ValueError`s.
pub data StoreError : Type 0 where
  same_evidence not_exact not_duplicate : StoreError

-- `_ordered_pair`
unfoldable pub ordered_pair : ℕ → ℕ → Result StoreError (ℕ × ℕ)
ordered_pair left right = do
  require (not (left == right)) same_evidence
  returns (if leb left right then (left, right) else (right, left))

abbrev pub is_pair : ℕ → ℕ → DuplicateLink → Bool
is_pair left right l = l.left_evidence_id == left && l.right_evidence_id == right

-- `SELECT … WHERE left_evidence_id = … AND right_evidence_id = …`
unfoldable pub find_link : ℕ → ℕ → List DuplicateLink → Option DuplicateLink
find_link left right [] = none
find_link left right (l ∷ links) =
    if is_pair left right l then some l else find_link left right links

-- `INSERT … ON CONFLICT (left_evidence_id, right_evidence_id) DO UPDATE`
unfoldable pub upsert_link :
    ℕ
    → ℕ
    → DuplicateLink
    → (DuplicateLink → DuplicateLink)
    → List DuplicateLink
    → List DuplicateLink
upsert_link left right new change [] = new ∷ []
upsert_link left right new change (l ∷ links) =
    if is_pair left right l then change l ∷ links else l ∷ upsert_link left right new change links

-- `UPDATE … WHERE left_evidence_id = … AND right_evidence_id = …`
unfoldable pub update_link :
    ℕ → ℕ → (DuplicateLink → DuplicateLink) → List DuplicateLink → List DuplicateLink
update_link left right change [] = []
update_link left right change (l ∷ links) =
    if is_pair left right l then change l ∷ links else l ∷ update_link left right change links

-- The row that a score inserts.
abbrev pub link_for :
    ℕ → ℕ → DuplicateScore → Option ℕ → LinkStatus → Option LinkSource → DuplicateLink
link_for left right s expense status source = record {
  left_evidence_id = left;
  right_evidence_id = right;
  canonical_expense_pk = expense;
  score = s.score;
  disposition = s.disposition;
  reasons = s.reasons;
  item_similarity = s.item_similarity;
  resolution_status = status;
  resolution_source = source;
}

abbrev pub rescore : DuplicateScore → DuplicateLink → DuplicateLink
rescore s l = record l {
  score = s.score;
  disposition = s.disposition;
  reasons = s.reasons;
  item_similarity = s.item_similarity;
}

-- `save_score`: a decision that is there stays.
unfoldable pub save_score : DuplicateScore → DuplicateTables → Result StoreError DuplicateTables
unfolding ordered_pair upsert_link
save_score s t = do
  (left, right) ← ordered_pair s.left_evidence_id s.right_evidence_id
  returns (record t {
    links = upsert_link left right (link_for left right s none pending none) (rescore s) t.links;
  })

abbrev pub link_to : ℕ → EvidenceRow → EvidenceRow
link_to expense e = record e { expense_pk = some expense }

-- `_resolve`
unfoldable pub resolve_link :
    DuplicateScore
    → ℕ
    → LinkStatus
    → LinkSource
    → DuplicateTables
    → Result StoreError (DuplicateResolution × DuplicateTables)
unfolding ordered_pair upsert_link update
resolve_link s expense status source t = do
  (left, right) ← ordered_pair s.left_evidence_id s.right_evidence_id
  let row = link_for left right s (some expense) status (some source)
  returns (
    record {
      left_evidence_id = left;
      right_evidence_id = right;
      canonical_expense_pk = some expense;
      resolution_status = status;
    },
    record {
      evidence = update right (link_to expense) (update left (link_to expense) t.evidence);
      links = upsert_link left right row (λ _. row) t.links;
    },
  )

abbrev pub is_exact : DuplicateDisposition → Bool
is_exact exact = true
is_exact _ = false

abbrev pub is_distinct : DuplicateDisposition → Bool
is_distinct distinct_receipts = true
is_distinct _ = false

-- `auto_link_exact`
unfoldable pub auto_link_exact :
    DuplicateScore → ℕ → DuplicateTables → Result StoreError (DuplicateResolution × DuplicateTables)
unfolding resolve_link
auto_link_exact s expense t = do
  require (is_exact s.disposition) not_exact
  resolve_link s expense auto_linked deduplication_exact t

-- `confirm_link`
unfoldable pub confirm_link :
    DuplicateScore → ℕ → DuplicateTables → Result StoreError (DuplicateResolution × DuplicateTables)
unfolding resolve_link
confirm_link s expense t = do
  require (not (is_distinct s.disposition)) not_duplicate
  resolve_link s expense confirmed manual_review t

abbrev pub refuse : DuplicateLink → DuplicateLink
refuse l = record l {
  canonical_expense_pk = none;
  resolution_status = rejected;
  resolution_source = some manual_review;
}

-- `reject`
unfoldable pub reject_link :
    DuplicateScore → DuplicateTables → Result StoreError (DuplicateResolution × DuplicateTables)
unfolding ordered_pair update_link
reject_link s t = do
  (left, right) ← ordered_pair s.left_evidence_id s.right_evidence_id
  returns (
    record {
      left_evidence_id = left;
      right_evidence_id = right;
      canonical_expense_pk = none;
      resolution_status = rejected;
    },
    record t { links = update_link left right refuse t.links },
  )
