-- ===== src/DataQuality.antt =====
-- data_quality/required_fields.py: the required fields of a canonical expense. Dates and datetimes
-- are ordinals; the names of rules and fields are the source's strings.
pub mod Laws
mod Examples
use Prim.Native.String.{String}
use home_budget_pipeline.Prelude.{
  ℕ, Bool, true, false, not, ◌||◌, Option, none, some, List, [], ◌∷◌, ◌++◌, any, is_some,
  if◌then◌else◌,
}
use home_budget_pipeline.Prelude.Decimal.{Decimal}
use home_budget_pipeline.Prelude.Int.{ℤ, pos, ltb_ℤ, ◌==ℤ◌}
use home_budget_pipeline.Prelude.Text.{Text, codes, ◌==ₜ◌, strip, truthy}
use home_budget_pipeline.Prelude.Result.{Result, returns, ◌>>=◌, ◌>>◌, require}

pub data DataQualityStatus : Type 0 where
  pass fail not_applicable : DataQualityStatus

pub record CanonicalExpense : Type 0 where
  pub expense_pk : ℤ
  pub source : Option Text
  pub order_id : Option Text
  pub order_date : Option ℕ
  pub transaction_datetime : Option ℕ
  pub store_name : Option Text
  pub expense_total : Option Decimal

pub record CanonicalExpenseItem : Type 0 where
  pub id : ℤ
  pub expense_pk : ℤ
  pub item_name : Option Text
  pub line_total : Option Decimal

pub record DataQualityViolation : Type 0 where
  pub rule : String
  pub field : String
  pub item_id : Option ℤ
  pub message : Option String

pub record DataQualityResult : Type 0 where
  pub expense_pk : ℤ
  pub status : DataQualityStatus
  pub violations : List DataQualityViolation

-- The `ValueError`s.
pub data DataQualityError : Type 0 where
  expense_pk_not_positive foreign_item : DataQualityError

-- `DataQualityResult.requires_review`
unfoldable pub requires_review : DataQualityResult → Bool
requires_review r = elim r.status [ fail ↦ true | _ ↦ false ]

unfoldable pub supported_sources : List Text
supported_sources = codes "instacart" ∷ codes "costco" ∷ codes "sobeys" ∷ codes "scanned" ∷ []

-- `value is not None and value.strip()`
unfoldable pub has_text : Option Text → Bool
has_text none = false
has_text (some t) = truthy (strip t)

abbrev pub violation : String → String → Option ℤ → Option String → DataQualityViolation
violation rule field item_id message = record {
  rule = rule;
  field = field;
  item_id = item_id;
  message = message;
}

-- What one test appends to the violations: the violation where the test fails.
abbrev pub unless : Bool → DataQualityViolation → List DataQualityViolation
unless true v = []
unless false v = v ∷ []

-- `_require_text`
unfoldable pub require_text : String → String → Option Text → List DataQualityViolation
unfolding has_text
require_text rule field value = unless (has_text value) (violation rule field none none)

abbrev pub some_items : List CanonicalExpenseItem → Bool
some_items [] = false
some_items (_ ∷ _) = true

-- The violations of the expense itself, in the order of the source.
unfoldable pub expense_violations :
    CanonicalExpense → List CanonicalExpenseItem → List DataQualityViolation
unfolding require_text
expense_violations e items =
    require_text "missing_source" "source" e.source
    ++ require_text "missing_order_id" "order_id" e.order_id
    ++ require_text "missing_store_name" "store_name" e.store_name
    ++ unless (is_some e.order_date || is_some e.transaction_datetime) (
        violation "missing_transaction_date" "order_date|transaction_datetime" none
          (some "canonical expense requires an order date or transaction datetime"))
    ++ unless (is_some e.expense_total)
        (violation "missing_expense_total" "expense_total" none none)
    ++ unless (some_items items) (violation "missing_items" "items" none none)

-- The violations of one item.
unfoldable pub item_violations : CanonicalExpenseItem → List DataQualityViolation
unfolding has_text
item_violations i =
    unless (ltb_ℤ (pos 0) i.id) (violation "invalid_item_id" "id" (some i.id) none)
    ++ unless (has_text i.item_name) (violation "item_missing_name" "item_name" (some i.id) none)
    ++ unless (is_some i.line_total)
        (violation "item_missing_line_total" "line_total" (some i.id) none)

unfoldable pub items_violations : List CanonicalExpenseItem → List DataQualityViolation
unfolding item_violations
items_violations [] = []
items_violations (i ∷ items) = item_violations i ++ items_violations items

abbrev pub status_of : List DataQualityViolation → DataQualityStatus
status_of [] = pass
status_of (_ ∷ _) = fail

-- `RequiredFieldValidator.validate`
unfoldable pub validate :
    CanonicalExpense → List CanonicalExpenseItem → Result DataQualityError DataQualityResult
unfolding expense_violations items_violations any
validate e items = do
  require (ltb_ℤ (pos 0) e.expense_pk) expense_pk_not_positive
  require (not (any (λ (i : CanonicalExpenseItem). not (i.expense_pk ==ℤ e.expense_pk)) items))
      foreign_item
  returns (
      let violations = expense_violations e items ++ items_violations items in
      record { expense_pk = e.expense_pk; status = status_of violations; violations = violations })

-- `RequiredFieldValidator.source_rule_status`
unfoldable pub source_rule_status : Text → Text → DataQualityStatus
unfolding supported_sources any
source_rule_status source rule_source =
    if not (any (λ s. s ==ₜ source) supported_sources)
    then not_applicable
    else if source ==ₜ rule_source
    then pass
    else not_applicable
