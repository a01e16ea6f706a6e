-- ===== src/Receipts/Duplicates.antt =====
-- receipts/deduplication.py: the duplicate score of two receipts. Datetimes are microseconds since
-- one fixed midnight, totals are integers of cents, quantities are finite decimals.
pub mod Score
pub mod Store
use home_budget_pipeline.Prelude.{
  ℕ, suc, zero, ◌*◌, ◌/◌, ◌%◌, Bool, true, false, ◌&&◌, Option, none, some, List, [], ◌∷◌, map, leb,
  ◌==◌, length, if◌then◌else◌,
}
use home_budget_pipeline.Prelude.Decimal.{with_sign}
use home_budget_pipeline.Prelude.Int.{ℤ, abs, ◌==ℤ◌}
use home_budget_pipeline.Prelude.Sets.{distinct, common, union}
use home_budget_pipeline.Prelude.Text.{Text, ◌==ₜ◌, lower, split, join}
use home_budget_pipeline.Prelude.Words.{spaced, letters}

pub data DuplicateDisposition : Type 0 where
  exact probable review distinct_receipts : DuplicateDisposition

-- `amount` is scaled by 10 to the power `places`.
pub record Quantity : Type 0 where
  pub amount : ℤ
  pub places : ℕ

pub record ReceiptItemFingerprint : Type 0 where
  pub name : Text
  pub quantity : Option Quantity
  pub line_total : Option ℤ

pub record ReceiptEvidenceFingerprint : Type 0 where
  pub evidence_id : ℕ
  pub source_type : Text
  pub merchant : Option Text
  pub transaction_datetime : Option ℕ
  pub total : Option ℤ
  pub receipt_id : Option Text
  pub order_id : Option Text
  pub card_last4 : Option Text
  pub items : List ReceiptItemFingerprint

-- The strings of `reasons`; the last two are those that receipts/duplicate_review.py adds.
pub data DuplicateReason : Type 0 where
  identifier_match merchant_match time_within_5m same_day total_exact total_within_5pct card_match
        items_near_exact items_strong_overlap items_partial_overlap merchant_time_item_correlation
        low_score_same_time_total human_review_of_low_score_pair :
      DuplicateReason

-- The quotient `common / all`.
pub record Similarity : Type 0 where
  pub common_keys : ℕ
  pub all_keys : ℕ

pub record DuplicateScore : Type 0 where
  pub left_evidence_id : ℕ
  pub right_evidence_id : ℕ
  pub score : ℕ
  pub disposition : DuplicateDisposition
  pub reasons : List DuplicateReason
  pub item_similarity : Similarity

abbrev pub exact_threshold : ℕ
exact_threshold = 90

abbrev pub probable_threshold : ℕ
probable_threshold = 70

abbrev pub review_threshold : ℕ
review_threshold = 50

-- `value or ""`
abbrev pub or_empty : Option Text → Text
or_empty none = []
or_empty (some value) = value

-- `_norm_id`
unfoldable pub norm_id : Option Text → Text
unfolding letters lower
norm_id value = letters (lower (or_empty value))

-- `_norm_text`
unfoldable pub norm_text : Option Text → Text
unfolding spaced lower split join
norm_text value = join (split (spaced (lower (or_empty value))))

-- The amount and the places without trailing zeros: what `normalize` and the format `f` print.
unfoldable pub normal_places : ℕ → ℕ → ℕ × ℕ
normal_places n zero = (n, 0)
normal_places n (suc places) =
    let rest = normal_places (n / 10) places in if n % 10 == 0 then rest else (n, suc places)

abbrev pub Key : Type 0
Key = Text × Option (ℤ × ℕ)

unfoldable pub quantity_key : Option Quantity → Option (ℤ × ℕ)
unfolding normal_places
quantity_key none = none
quantity_key (some q) =
    let (n, places) = normal_places (abs q.amount) q.places in some (with_sign q.amount n, places)

-- `_item_key`
unfoldable pub item_key : ReceiptItemFingerprint → Key
unfolding norm_text quantity_key
item_key item = (norm_text (some item.name), quantity_key item.quantity)

abbrev pub same_quantity : Option (ℤ × ℕ) → Option (ℤ × ℕ) → Bool
same_quantity none none = true
same_quantity (some (a, p)) (some (b, q)) = a ==ℤ b && p == q
same_quantity _ _ = false

abbrev pub same_key : Key → Key → Bool
same_key (a, q) (b, r) = a ==ₜ b && same_quantity q r

-- The set of the keys of the items.
unfoldable pub keys : List ReceiptItemFingerprint → List Key
unfolding item_key distinct
keys items = distinct same_key (map item_key items)

-- `_item_similarity`; no items on one side give 0.
unfoldable pub item_similarity_of :
    List ReceiptItemFingerprint → List ReceiptItemFingerprint → Similarity
unfolding keys common union
item_similarity_of [] right = record { common_keys = 0; all_keys = 1 }
item_similarity_of (i ∷ left) [] = record { common_keys = 0; all_keys = 1 }
item_similarity_of (i ∷ left) (j ∷ right) = record {
  common_keys = length (common same_key (keys (i ∷ left)) (keys (j ∷ right)));
  all_keys = length (union same_key (keys (i ∷ left)) (keys (j ∷ right)));
}

-- `s >= percent / 100`
abbrev pub reaches : ℕ → Similarity → Bool
reaches percent s = leb (percent * s.all_keys) (100 * s.common_keys)
