-- ===== src/Reconciliation/Examples.antt =====
-- Runs of the reconciler, and instances of its theorems.
use home_budget_pipeline.Prelude.{◌≡◌, refl, ◌↔◌, ◌⊎◌, true, none, some, [], ◌∷◌, any, All, select}
use home_budget_pipeline.Prelude.Int.{pos, ◌+ℤ◌, ◌-ℤ◌, sum, ◌<ℤ◌}
use home_budget_pipeline.Prelude.Text.{codes}
use home_budget_pipeline.Prelude.Result.{returns, raises}
use home_budget_pipeline.Reconciliation.{
  CanonicalPurchaseAmounts, CanonicalPurchaseItem, CategorySplit, CanonicalPurchaseReconciler,
  PurchaseReconciliationResult, check_requires_review, requires_review, compare_amounts, no_check,
  compare_total, expected_total, total_of, split_total, reconcile_items_to_subtotal,
  reconcile_receipt_equation, reconcile_category_splits, validate_keys, reconcile, make_reconciler,
  negative_tolerance,
}
use home_budget_pipeline.Reconciliation.Laws.{
  ItemsDiffer, TotalDiffers, SplitsDiffer, review_tells_mismatch, result_of,
}
use home_budget_pipeline.Reconciliation.Keys.{reconcile_accepts}

-- Amounts in cents.
abbrev one_cent : CanonicalPurchaseReconciler
one_cent = record { tolerance = pos 1 }

abbrev shop : CanonicalPurchaseAmounts
shop = record {
  expense_pk = pos 7;
  subtotal = some (pos 1000);
  total = some (pos 1130);
  taxes = some (pos 130);
  fees = none;
  tip = none;
  discounts = none;
  receipt_equation_complete = true;
}

abbrev bread : CanonicalPurchaseItem
bread = record {
  id = pos 1;
  expense_pk = pos 7;
  line_total = some (pos 400);
  category_name = some (codes "Bakery");
}

abbrev soap : CanonicalPurchaseItem
soap = record { id = pos 2; expense_pk = pos 7; line_total = some (pos 600); category_name = none }

abbrev bakery_split : CategorySplit
bakery_split = record { expense_pk = pos 7; category_name = codes "Bakery"; amount = pos 450 }

-- The split is 50 cents off.
shop_review :
    requires_review (result_of one_cent shop (bread ∷ soap ∷ []) (bakery_split ∷ [])) ≡ true
unfolding requires_review any reconcile_items_to_subtotal reconcile_receipt_equation
    reconcile_category_splits check_requires_review compare_amounts no_check compare_total
    expected_total total_of split_total select sum ◌+ℤ◌ ◌-ℤ◌
shop_review = refl

negative : make_reconciler (pos 0 -ℤ pos 1) ≡ raises negative_tolerance
unfolding make_reconciler ◌-ℤ◌
negative = refl

shop_result :
    reconcile one_cent shop (bread ∷ soap ∷ []) (bakery_split ∷ [])
    ≡ returns (result_of one_cent shop (bread ∷ soap ∷ []) (bakery_split ∷ []))
unfolding reconcile validate_keys any
shop_result = refl

review_tells_mismatch_example :
    (requires_review (result_of one_cent shop (bread ∷ soap ∷ []) (bakery_split ∷ [])) ≡ true) ↔ (
      ItemsDiffer one_cent (some (pos 1000)) (bread ∷ soap ∷ [])
      ⊎ (TotalDiffers one_cent shop
          ⊎ SplitsDiffer one_cent (bread ∷ soap ∷ []) (bakery_split ∷ [])))
review_tells_mismatch_example =
    review_tells_mismatch one_cent shop (bread ∷ soap ∷ []) (bakery_split ∷ [])
      (result_of one_cent shop (bread ∷ soap ∷ []) (bakery_split ∷ [])) shop_result

reconcile_accepts_example :
    ((result : PurchaseReconciliationResult) × (reconcile one_cent shop
          (bread ∷ soap ∷ [])
          (bakery_split ∷ [])
        ≡ returns result))
    ↔ ((pos 0 <ℤ pos 7)
        × All (λ (i : CanonicalPurchaseItem). i.expense_pk ≡ pos 7) (bread ∷ soap ∷ [])
        × All (λ (s : CategorySplit). s.expense_pk ≡ pos 7) (bakery_split ∷ []))
reconcile_accepts_example = reconcile_accepts one_cent shop (bread ∷ soap ∷ []) (bakery_split ∷ [])
