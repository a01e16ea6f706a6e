-- ===== src/Reconciliation/Laws.antt =====
-- What a reconciliation result tells of the amounts.
use home_budget_pipeline.Prelude.{
  ◌≡◌, refl, ◌↔◌, ◌⊎◌, Bool, true, false, not, Option, none, some, arith, List, any, select,
  if◌then◌else◌, some-inj, sym, subst, map,
}
use home_budget_pipeline.Prelude.Int.{
  sum, ℤ, pos, ◌+ℤ◌, ◌-ℤ◌, ltb_ℤ, ◌==ℤ◌, ◌<ℤ◌, +ℤ_parts, -ℤ_parts,
}
use home_budget_pipeline.Prelude.Result.{returns}
use home_budget_pipeline.Reconciliation.Totals.{
  AreTotals, AreCategorized, totals_there, AreTotals-full, total_of-AreTotals,
  AreCategorized-totals, AreCategorized-of,
}
use home_budget_pipeline.Reconciliation.{
  or_zero, CanonicalPurchaseAmounts, CanonicalPurchaseItem, CategorySplit, ReconciliationCheck,
  PurchaseReconciliationResult, CanonicalPurchaseReconciler, check_requires_review, requires_review,
  within, compare_amounts, no_check, lacks_total, has_category, total_of, split_total,
  reconcile_items_to_subtotal, expected_total, compare_total, reconcile_receipt_equation,
  reconcile_category_splits, validate_keys, reconcile, Reason, equation_incomplete,
  item_totals_missing, categorized_totals_missing,
}

-- The two amounts differ by more than the tolerance.
abbrev pub Far : ℤ → ℤ → ℤ → Type 0
Far tolerance a b = (b +ℤ tolerance <ℤ a) ⊎ (a +ℤ tolerance <ℤ b)

within-Far : (e a t : ℤ) → (within (a -ℤ e) t ≡ false) ↔ Far t e a
within-Far e a t = grind (arith, -ℤ_parts a e, +ℤ_parts a t, +ℤ_parts e t)

compare-Far :
    (r : CanonicalPurchaseReconciler) (e a : ℤ)
    → (check_requires_review (compare_amounts r e a) ≡ true) ↔ Far r.tolerance e a
unfolding compare_amounts check_requires_review
compare-Far r e a = let w = within-Far e a r.tolerance in ground arith

-- The subtotal is known, as is each line total, and the lines do not add up to it.
abbrev pub ItemsDiffer :
    CanonicalPurchaseReconciler → Option ℤ → List CanonicalPurchaseItem → Type 0
ItemsDiffer r subtotal items =
    (s : ℤ) × (totals : List ℤ) × (subtotal ≡ some s)
    × AreTotals items totals
    × Far r.tolerance s (sum totals)

-- The source prints the whole equation of the total, and it does not hold; taxes, fees, a tip and
-- discounts that are missing are 0.
abbrev pub TotalDiffers : CanonicalPurchaseReconciler → CanonicalPurchaseAmounts → Type 0
TotalDiffers r p =
    (p.receipt_equation_complete ≡ true)
    × (s : ℤ) × (t : ℤ) × (p.subtotal ≡ some s)
    × (p.total ≡ some t)
    × Far r.tolerance
        (s +ℤ or_zero p.taxes +ℤ or_zero p.fees +ℤ or_zero p.tip -ℤ or_zero p.discounts) t

-- Each categorized line has a total, and the splits do not add up to these.
abbrev pub SplitsDiffer :
    CanonicalPurchaseReconciler → List CanonicalPurchaseItem → List CategorySplit → Type 0
SplitsDiffer r items splits =
    (totals : List ℤ) × AreCategorized items totals
    × Far r.tolerance (sum totals) (sum (map (λ (s : CategorySplit). s.amount) splits))

guarded-Far :
    (r : CanonicalPurchaseReconciler) (b : Bool) (why : Reason) (e a : ℤ)
    → (check_requires_review (if b then no_check r why else compare_amounts r e a) ≡ true)
      ↔ ((b ≡ false) × Far r.tolerance e a)
unfolding no_check check_requires_review
guarded-Far r true why e a = ground arith
guarded-Far r false why e a = let c = compare-Far r e a in ground arith

items_differ :
    (r : CanonicalPurchaseReconciler) (subtotal : Option ℤ) (items : List CanonicalPurchaseItem)
    → (check_requires_review (reconcile_items_to_subtotal r subtotal items) ≡ true)
      ↔ ItemsDiffer r subtotal items
unfolding reconcile_items_to_subtotal no_check check_requires_review
items_differ r none items = (λ h. cc, λ h. cc)
items_differ r (some s) items =
    let g = guarded-Far r (any lacks_total items) item_totals_missing s (total_of items) in
    (
      λ h.
          let (full, far) = g.0 h in
          let (totals, are) = totals_there items full in
          (
            s,
            totals,
            refl,
            are,
            subst (Far r.tolerance s) (total_of-AreTotals items totals are) far,
          ),
      λ (u, totals, e, are, far). g.1 (
        AreTotals-full items totals are,
        subst (λ x. Far r.tolerance x (total_of items)) (sym (some-inj e))
            (subst (Far r.tolerance u) (sym (total_of-AreTotals items totals are)) far),
      ),
    )

total_differs_from :
    (r : CanonicalPurchaseReconciler) (p : CanonicalPurchaseAmounts) (subtotal total : Option ℤ)
    → (check_requires_review (compare_total r p subtotal total) ≡ true) ↔ (
        (s : ℤ) × (t : ℤ) × (subtotal ≡ some s)
        × (total ≡ some t)
        × Far r.tolerance (expected_total p s) t)
unfolding compare_total no_check check_requires_review
total_differs_from r p none total = (λ h. cc, λ h. cc)
total_differs_from r p (some s) none = (λ h. cc, λ h. cc)
total_differs_from r p (some s) (some t) =
    let c = compare-Far r (expected_total p s) t in
    (λ h. (s, t, refl, refl, c.0 h), λ h. c.1 (rw (some-inj h.2) (rw (some-inj h.3) h.4)))

guarded_review :
    (b : Bool) (c d : ReconciliationCheck)
    → check_requires_review d ≡ false
    → (check_requires_review (if b then c else d) ≡ true)
      ↔ ((b ≡ true) × (check_requires_review c ≡ true))
guarded_review b c d h = ground arith

total_differs :
    (r : CanonicalPurchaseReconciler) (p : CanonicalPurchaseAmounts)
    → (check_requires_review (reconcile_receipt_equation r p) ≡ true) ↔ TotalDiffers r p
unfolding reconcile_receipt_equation no_check check_requires_review expected_total
total_differs r p =
    let d = total_differs_from r p p.subtotal p.total in
    let g =
      guarded_review p.receipt_equation_complete (compare_total r p p.subtotal p.total)
        (no_check r equation_incomplete) refl in
    (
      λ h. let (s, t, a, b, c) = d.0 (g.0 h).1 in ((g.0 h).0, s, t, a, b, c),
      λ h. g.1 (h.0, d.1 (h.1, h.2, h.3, h.4, h.5)),
    )

splits_differ :
    (r : CanonicalPurchaseReconciler) (items : List CanonicalPurchaseItem)
    (splits : List CategorySplit)
    → (check_requires_review (reconcile_category_splits r items splits) ≡ true)
      ↔ SplitsDiffer r items splits
unfolding reconcile_category_splits split_total
splits_differ r items splits =
    let lines = select has_category items in
    let amounts = sum (map (λ (s : CategorySplit). s.amount) splits) in
    let g =
      guarded-Far r (any lacks_total lines) categorized_totals_missing (total_of lines) amounts in
    (
      λ h.
          let (full, far) = g.0 h in
          let (totals, are) = totals_there lines full in
          (
            totals,
            AreCategorized-of items totals are,
            subst (λ x. Far r.tolerance x amounts) (total_of-AreTotals lines totals are) far,
          ),
      λ (totals, categorized, far).
          let are = AreCategorized-totals categorized in
          g.1 (
            AreTotals-full lines totals are,
            subst (λ x. Far r.tolerance x amounts) (sym (total_of-AreTotals lines totals are)) far,
          ),
    )

-- The result that `reconcile` returns, if it returns.
abbrev pub result_of :
    CanonicalPurchaseReconciler
    → CanonicalPurchaseAmounts
    → List CanonicalPurchaseItem
    → List CategorySplit
    → PurchaseReconciliationResult
result_of r p items splits = record {
  expense_pk = p.expense_pk;
  item_subtotal = reconcile_items_to_subtotal r p.subtotal items;
  receipt_total = reconcile_receipt_equation r p;
  category_splits = reconcile_category_splits r items splits;
}

abbrev other_item : ℤ → CanonicalPurchaseItem → Bool
other_item pk i = not (i.expense_pk ==ℤ pk)

abbrev other_split : ℤ → CategorySplit → Bool
other_split pk s = not (s.expense_pk ==ℤ pk)

reconcile-inversion :
    (r : CanonicalPurchaseReconciler) (p : CanonicalPurchaseAmounts)
    (items : List CanonicalPurchaseItem) (splits : List CategorySplit)
    (result : PurchaseReconciliationResult)
    → reconcile r p items splits ≡ returns result
    → (ltb_ℤ (pos 0) p.expense_pk ≡ true)
      × (any (other_item p.expense_pk) items ≡ false)
      × (any (other_split p.expense_pk) splits ≡ false)
      × (result ≡ result_of r p items splits)
unfolding reconcile validate_keys any
reconcile-inversion r p items splits result done = ground arith

-- A result asks for a review exactly when, by more than the tolerance, the line totals, all known, do
-- not add up to a known subtotal; or the known total is not the known subtotal with taxes, fees and
-- tip less the discounts, where the source prints this whole equation and a missing one of the four
-- counts as 0; or the category splits do not add up to the categorized lines, all with known totals.
pub review_tells_mismatch :
    (r : CanonicalPurchaseReconciler) (p : CanonicalPurchaseAmounts)
    (items : List CanonicalPurchaseItem) (splits : List CategorySplit)
    (result : PurchaseReconciliationResult)
    → reconcile r p items splits ≡ returns result
    → (requires_review result ≡ true)
      ↔ (ItemsDiffer r p.subtotal items ⊎ (TotalDiffers r p ⊎ SplitsDiffer r items splits))
unfolding requires_review any
review_tells_mismatch r p items splits result done =
    let e = (reconcile-inversion r p items splits result done).3 in
    let i = items_differ r p.subtotal items in
    let t = total_differs r p in let c = splits_differ r items splits in rw e (ground arith)
