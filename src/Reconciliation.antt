-- ===== src/Reconciliation.antt =====
-- reconciliation/processing.py: the checks of one canonical purchase. Amounts and the tolerance are
-- integers of one common unit; keys are integers.
pub mod Totals
pub mod Laws
pub mod Keys
mod Examples
use home_budget_pipeline.Prelude.{
  ◌+◌, Bool, true, false, not, Option, none, some, List, [], ◌∷◌, map, leb, any, select, is_some,
  is_none, if◌then◌else◌,
}
use home_budget_pipeline.Prelude.Int.{
  ℤ, pos, ◌+ℤ◌, ◌-ℤ◌, abs, ltb_ℤ, ◌==ℤ◌, pos_part, neg_part, sum,
}
use home_budget_pipeline.Prelude.Text.{Text}
use home_budget_pipeline.Prelude.Result.{Result, returns, ◌>>=◌, ◌>>◌, require}

pub data ReconciliationStatus : Type 0 where
  pass fail not_checkable : ReconciliationStatus

pub record CanonicalPurchaseAmounts : Type 0 where
  pub expense_pk : ℤ
  pub subtotal : Option ℤ
  pub total : Option ℤ
  pub taxes : Option ℤ
  pub fees : Option ℤ
  pub tip : Option ℤ
  pub discounts : Option ℤ
  pub receipt_equation_complete : Bool

pub record CanonicalPurchaseItem : Type 0 where
  pub id : ℤ
  pub expense_pk : ℤ
  pub line_total : Option ℤ
  pub category_name : Option Text

pub record CategorySplit : Type 0 where
  pub expense_pk : ℤ
  pub category_name : Text
  pub amount : ℤ

pub data Reason : Type 0 where
  subtotal_missing item_totals_missing equation_incomplete total_missing
        categorized_totals_missing :
      Reason

pub record ReconciliationCheck : Type 0 where
  pub status : ReconciliationStatus
  pub variance : Option ℤ
  pub expected : Option ℤ
  pub actual : Option ℤ
  pub tolerance : ℤ
  pub reason : Option Reason

pub record PurchaseReconciliationResult : Type 0 where
  pub expense_pk : ℤ
  pub item_subtotal : ReconciliationCheck
  pub receipt_total : ReconciliationCheck
  pub category_splits : ReconciliationCheck

-- The `ValueError`s.
pub data ReconciliationError : Type 0 where
  negative_tolerance expense_pk_not_positive foreign_item foreign_split : ReconciliationError

pub record CanonicalPurchaseReconciler : Type 0 where
  pub tolerance : ℤ

-- `__init__`
unfoldable pub make_reconciler : ℤ → Result ReconciliationError CanonicalPurchaseReconciler
make_reconciler tolerance = do
  require (not (ltb_ℤ tolerance (pos 0))) negative_tolerance
  returns (record { tolerance = tolerance })

-- `ReconciliationCheck.requires_review`
unfoldable pub check_requires_review : ReconciliationCheck → Bool
check_requires_review c = elim c.status [ fail ↦ true | _ ↦ false ]

-- `PurchaseReconciliationResult.requires_review`
unfoldable pub requires_review : PurchaseReconciliationResult → Bool
unfolding check_requires_review any
requires_review r =
    any check_requires_review (r.item_subtotal ∷ r.receipt_total ∷ r.category_splits ∷ [])

-- `abs(variance) <= tolerance`
abbrev pub within : ℤ → ℤ → Bool
within variance tolerance = leb (abs variance + neg_part tolerance) (pos_part tolerance)

-- `_compare`
unfoldable pub compare_amounts : CanonicalPurchaseReconciler → ℤ → ℤ → ReconciliationCheck
compare_amounts r expected actual =
    let variance = actual -ℤ expected in
    record {
      status = if within variance r.tolerance then pass else fail;
      variance = some variance;
      expected = some expected;
      actual = some actual;
      tolerance = r.tolerance;
      reason = none;
    }

-- `_not_checkable`
unfoldable pub no_check : CanonicalPurchaseReconciler → Reason → ReconciliationCheck
no_check r why = record {
  status = not_checkable;
  variance = none;
  expected = none;
  actual = none;
  tolerance = r.tolerance;
  reason = some why;
}

-- `amount or ZERO`
abbrev pub or_zero : Option ℤ → ℤ
or_zero none = pos 0
or_zero (some a) = a

abbrev pub lacks_total : CanonicalPurchaseItem → Bool
lacks_total item = is_none item.line_total

abbrev pub has_category : CanonicalPurchaseItem → Bool
has_category item = is_some item.category_name

-- The sum of the line totals, a missing one counted as zero.
unfoldable pub total_of : List CanonicalPurchaseItem → ℤ
unfolding sum
total_of items = sum (map (λ (i : CanonicalPurchaseItem). or_zero i.line_total) items)

unfoldable pub split_total : List CategorySplit → ℤ
unfolding sum
split_total splits = sum (map (λ (s : CategorySplit). s.amount) splits)

-- `_reconcile_items_to_subtotal`
unfoldable pub reconcile_items_to_subtotal :
    CanonicalPurchaseReconciler → Option ℤ → List CanonicalPurchaseItem → ReconciliationCheck
unfolding no_check compare_amounts total_of any
reconcile_items_to_subtotal r none items = no_check r subtotal_missing
reconcile_items_to_subtotal r (some subtotal) items =
    if any lacks_total items
    then no_check r item_totals_missing
    else compare_amounts r subtotal (total_of items)

-- The printed components of the total.
unfoldable pub expected_total : CanonicalPurchaseAmounts → ℤ → ℤ
expected_total p subtotal =
    subtotal +ℤ or_zero p.taxes +ℤ or_zero p.fees +ℤ or_zero p.tip -ℤ or_zero p.discounts

unfoldable pub compare_total :
    CanonicalPurchaseReconciler
    → CanonicalPurchaseAmounts
    → Option ℤ
    → Option ℤ
    → ReconciliationCheck
unfolding no_check compare_amounts expected_total
compare_total r p none total = no_check r subtotal_missing
compare_total r p (some subtotal) none = no_check r total_missing
compare_total r p (some subtotal) (some total) = compare_amounts r (expected_total p subtotal) total

-- `_reconcile_receipt_equation`
unfoldable pub reconcile_receipt_equation :
    CanonicalPurchaseReconciler → CanonicalPurchaseAmounts → ReconciliationCheck
unfolding no_check compare_total
reconcile_receipt_equation r p =
    if p.receipt_equation_complete
    then compare_total r p p.subtotal p.total
    else no_check r equation_incomplete

-- `_reconcile_category_splits`
unfoldable pub reconcile_category_splits :
    CanonicalPurchaseReconciler
    → List CanonicalPurchaseItem
    → List CategorySplit
    → ReconciliationCheck
unfolding no_check compare_amounts total_of split_total any select
reconcile_category_splits r items splits =
    let categorized = select has_category items in
    if any lacks_total categorized
    then no_check r categorized_totals_missing
    else compare_amounts r (total_of categorized) (split_total splits)

-- `_validate_keys`
unfoldable pub validate_keys :
    ℤ → List CanonicalPurchaseItem → List CategorySplit → Result ReconciliationError (Unit {0})
unfolding any
validate_keys expense_pk items splits = do
  require (not (any (λ (i : CanonicalPurchaseItem). not (i.expense_pk ==ℤ expense_pk)) items))
      foreign_item
  require (not (any (λ (s : CategorySplit). not (s.expense_pk ==ℤ expense_pk)) splits))
      foreign_split

-- `CanonicalPurchaseReconciler.reconcile`
unfoldable pub reconcile :
    CanonicalPurchaseReconciler
    → CanonicalPurchaseAmounts
    → List CanonicalPurchaseItem
    → List CategorySplit
    → Result ReconciliationError PurchaseReconciliationResult
unfolding validate_keys reconcile_items_to_subtotal reconcile_receipt_equation
    reconcile_category_splits
reconcile r purchase items splits = do
  require (ltb_ℤ (pos 0) purchase.expense_pk) expense_pk_not_positive
  validate_keys purchase.expense_pk items splits
  returns (record {
    expense_pk = purchase.expense_pk;
    item_subtotal = reconcile_items_to_subtotal r purchase.subtotal items;
    receipt_total = reconcile_receipt_equation r purchase;
    category_splits = reconcile_category_splits r items splits;
  })
