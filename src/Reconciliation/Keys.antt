-- ===== src/Reconciliation/Keys.antt =====
-- Which purchases the reconciler accepts.
use home_budget_pipeline.Prelude.{◌≡◌, refl, ◌↔◌, false, not, List, [], ◌∷◌, any, All, arith}
use home_budget_pipeline.Prelude.Int.{ℤ, pos, ◌==ℤ◌, ==ℤ_iff, ◌<ℤ◌}
use home_budget_pipeline.Prelude.Result.{returns}
use home_budget_pipeline.Reconciliation.{
  CanonicalPurchaseAmounts, CanonicalPurchaseItem, CategorySplit, CanonicalPurchaseReconciler,
  PurchaseReconciliationResult, reconcile, validate_keys,
}
use home_budget_pipeline.Reconciliation.Laws.{result_of}

own_items :
    (pk : ℤ) (items : List CanonicalPurchaseItem)
    → (any (λ (i : CanonicalPurchaseItem). not (i.expense_pk ==ℤ pk)) items ≡ false)
      ↔ All (λ (i : CanonicalPurchaseItem). i.expense_pk ≡ pk) items
unfolding any
own_items pk [] = (λ _. tt, λ _. refl)
own_items pk (i ∷ items) =
    let own = own_items pk items in let e = ==ℤ_iff i.expense_pk pk in ground arith

own_splits :
    (pk : ℤ) (splits : List CategorySplit)
    → (any (λ (s : CategorySplit). not (s.expense_pk ==ℤ pk)) splits ≡ false)
      ↔ All (λ (s : CategorySplit). s.expense_pk ≡ pk) splits
unfolding any
own_splits pk [] = (λ _. tt, λ _. refl)
own_splits pk (s ∷ splits) =
    let own = own_splits pk splits in let e = ==ℤ_iff s.expense_pk pk in ground arith

-- The reconciler returns a result exactly when the key is positive and each item and each split
-- carries it; in all other cases it raises.
pub reconcile_accepts :
    (r : CanonicalPurchaseReconciler) (p : CanonicalPurchaseAmounts)
    (items : List CanonicalPurchaseItem) (splits : List CategorySplit)
    → ((result : PurchaseReconciliationResult) × (reconcile r p items splits ≡ returns result)) ↔ (
        (pos 0 <ℤ p.expense_pk)
        × All (λ (i : CanonicalPurchaseItem). i.expense_pk ≡ p.expense_pk) items
        × All (λ (s : CategorySplit). s.expense_pk ≡ p.expense_pk) splits)
unfolding reconcile validate_keys
reconcile_accepts r p items splits =
    let own = own_items p.expense_pk items in
    let own' = own_splits p.expense_pk splits in
    (λ h. let done = h.1 in ground arith, λ h. (result_of r p items splits, ground arith))
