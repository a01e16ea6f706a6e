-- ===== src/Receipts/Duplicates/Score.antt =====
-- receipts/deduplication.py: `score` and `rank_candidates`.
pub mod Symmetry
pub mod Evidence
pub mod Rank
mod Examples
use home_budget_pipeline.Prelude.{
  ℕ, ◌+◌, ◌-◌, ◌*◌, ◌/◌, max, Bool, true, false, not, ◌&&◌, ◌||◌, Option, some, List, [], ◌∷◌, ◌++◌,
  map, leb, ◌==◌, select, any, if◌then◌else◌,
}
use home_budget_pipeline.Prelude.Int.{ℤ, abs, ◌-ℤ◌}
use home_budget_pipeline.Prelude.Ranking.{rank}
use home_budget_pipeline.Prelude.Sets.{member}
use home_budget_pipeline.Prelude.Text.{Text, ◌==ₜ◌, truthy}
use home_budget_pipeline.Receipts.Duplicates.{
  DuplicateDisposition, exact, probable, review, distinct_receipts, ReceiptEvidenceFingerprint,
  DuplicateReason, identifier_match, merchant_match, time_within_5m, same_day, total_exact,
  total_within_5pct, card_match, items_near_exact, items_strong_overlap, items_partial_overlap,
  merchant_time_item_correlation, DuplicateScore, exact_threshold, probable_threshold,
  review_threshold, norm_id, norm_text, item_similarity_of, reaches, Similarity,
}

-- `{receipt, order} - {""}`
unfoldable pub identifiers : ReceiptEvidenceFingerprint → List Text
unfolding norm_id select
identifiers e = select truthy (norm_id e.receipt_id ∷ norm_id e.order_id ∷ [])

unfoldable pub identifiers_meet : List Text → List Text → Bool
unfolding member any
identifiers_meet left right = any (λ i. member ◌==ₜ◌ i right) left

unfoldable pub merchants_match : Option Text → Option Text → Bool
unfolding norm_text
merchants_match left right = truthy (norm_text left) && norm_text left ==ₜ norm_text right

-- What the two datetimes are worth.
pub data Nearness : Type 0 where
  close on_same_day apart : Nearness

unfoldable pub nearness : Option ℕ → Option ℕ → Nearness
nearness (some a) (some b) =
    if leb ((a - b) + (b - a)) 300_000_000
    then close
    else if a / 86_400_000_000 == b / 86_400_000_000
    then on_same_day
    else apart
nearness _ _ = apart

-- What the two totals are worth.
pub data Agreement : Type 0 where
  equal_total within_5pct differ : Agreement

unfoldable pub agreement : Option ℤ → Option ℤ → Agreement
unfolding ◌-ℤ◌
agreement (some a) (some b) =
    let delta = abs (a -ℤ b) in
    if leb delta 1
    then equal_total
    else if leb (20 * delta) (max (max (abs a) (abs b)) 1)
    then within_5pct
    else differ
agreement _ _ = differ

unfoldable pub cards_match : Option Text → Option Text → Bool
cards_match (some a) (some b) = truthy a && truthy b && a ==ₜ b
cards_match _ _ = false

-- What the similarity of the items is worth.
pub data ItemOverlap : Type 0 where
  near_exact strong partial weak : ItemOverlap

unfoldable pub item_overlap : Similarity → ItemOverlap
item_overlap s =
    if reaches 90 s
    then near_exact
    else if reaches 70 s
    then strong
    else if reaches 50 s
    then partial
    else weak

-- The comparisons of a pair, from which score, reasons and disposition are made.
pub record Findings : Type 0 where
  pub identifier : Bool
  pub merchant : Bool
  pub time : Nearness
  pub total : Agreement
  pub card : Bool
  pub items : ItemOverlap

unfoldable pub compare_receipts : ReceiptEvidenceFingerprint → ReceiptEvidenceFingerprint → Findings
unfolding identifiers identifiers_meet merchants_match nearness agreement cards_match
    item_similarity_of item_overlap
compare_receipts left right = record {
  identifier = identifiers_meet (identifiers left) (identifiers right);
  merchant = merchants_match left.merchant right.merchant;
  time = nearness left.transaction_datetime right.transaction_datetime;
  total = agreement left.total right.total;
  card = cards_match left.card_last4 right.card_last4;
  items = item_overlap (item_similarity_of left.items right.items);
}

-- What one test adds to the score and to the reasons.
abbrev pub Gain : Type 0
Gain = ℕ × List DuplicateReason

abbrev pub gain : ℕ → DuplicateReason → Gain
gain points reason = (points, reason ∷ [])

abbrev pub no_gain : Gain
no_gain = (0, [])

abbrev pub flag_gain : Bool → ℕ → DuplicateReason → Gain
flag_gain b points reason = if b then gain points reason else no_gain

abbrev pub time_gain : Nearness → Gain
time_gain close = gain 15 time_within_5m
time_gain on_same_day = gain 8 same_day
time_gain apart = no_gain

abbrev pub total_gain : Agreement → Gain
total_gain equal_total = gain 20 total_exact
total_gain within_5pct = gain 10 total_within_5pct
total_gain differ = no_gain

abbrev pub items_gain : ItemOverlap → Gain
items_gain near_exact = gain 25 items_near_exact
items_gain strong = gain 18 items_strong_overlap
items_gain partial = gain 10 items_partial_overlap
items_gain weak = no_gain

abbrev pub is_time_close : Nearness → Bool
is_time_close close = true
is_time_close _ = false

abbrev pub is_overlapping : ItemOverlap → Bool
is_overlapping weak = false
is_overlapping _ = true

-- `correlated_item_match`
unfoldable pub correlated : Findings → Bool
correlated f = f.merchant && is_time_close f.time && is_overlapping f.items

unfoldable pub score_of_findings : Findings → ℕ
score_of_findings f =
    (flag_gain f.identifier 45 identifier_match).0
    + (flag_gain f.merchant 15 merchant_match).0
    + (time_gain f.time).0
    + (total_gain f.total).0
    + (flag_gain f.card 10 card_match).0
    + (items_gain f.items).0

unfoldable pub reasons_of_findings : Findings → List DuplicateReason
unfolding correlated
reasons_of_findings f =
    (flag_gain f.identifier 45 identifier_match).1
    ++ (flag_gain f.merchant 15 merchant_match).1
    ++ (time_gain f.time).1
    ++ (total_gain f.total).1
    ++ (flag_gain f.card 10 card_match).1
    ++ (items_gain f.items).1
    ++ (flag_gain (correlated f) 0 merchant_time_item_correlation).1

unfoldable pub disposition_for : ℕ → Bool → DuplicateDisposition
disposition_for score correlated_item_match =
    if leb exact_threshold score
    then exact
    else if leb probable_threshold score
    then probable
    else if leb review_threshold score || correlated_item_match
    then review
    else distinct_receipts

-- `ReceiptDuplicateScorer.score`
unfoldable pub score : ReceiptEvidenceFingerprint → ReceiptEvidenceFingerprint → DuplicateScore
unfolding compare_receipts correlated score_of_findings reasons_of_findings disposition_for
    item_similarity_of
score left right =
    let f = compare_receipts left right in
    record {
      left_evidence_id = left.evidence_id;
      right_evidence_id = right.evidence_id;
      score = score_of_findings f;
      disposition = disposition_for (score_of_findings f) (correlated f);
      reasons = reasons_of_findings f;
      item_similarity = item_similarity_of left.items right.items;
    }

abbrev pub score_of : DuplicateScore → ℕ
score_of s = s.score

abbrev pub right_id : DuplicateScore → ℕ
right_id s = s.right_evidence_id

abbrev pub other_than : ReceiptEvidenceFingerprint → ReceiptEvidenceFingerprint → Bool
other_than target candidate = not (candidate.evidence_id == target.evidence_id)

-- `ReceiptDuplicateScorer.rank_candidates`
unfoldable pub rank_candidates :
    ReceiptEvidenceFingerprint → List ReceiptEvidenceFingerprint → List DuplicateScore
unfolding score rank select
rank_candidates target candidates =
    rank score_of right_id (map (score target) (select (other_than target) candidates))
