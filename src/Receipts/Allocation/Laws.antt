-- ===== src/Receipts/Allocation/Laws.antt =====
-- When an allocation is reconciled.
use home_budget_pipeline.Prelude.{
  ◌≡◌, ◌≤◌, refl, ◌↔◌, Bool, true, false, ◌||◌, Option, none, some, List, [], ◌∷◌, ◌++◌, any,
  is_none, arith, ap, ◌∙◌, sym, subst, length, ◌<◌, map,
}
use home_budget_pipeline.Prelude.Decimal.{Decimal, IsCents}
use home_budget_pipeline.Prelude.Int.{ℤ, ◌+ℤ◌, ◌-ℤ◌, abs, sum}
use home_budget_pipeline.Prelude.Result.{Result, raises, returns, bind-inversion}
use home_budget_pipeline.Receipts.Allocation.Amounts.{
  IsAmount, AreAmounts, money-IsAmount, IsAmount-money, number_counts, moneys-AreAmounts,
  AreAmounts-moneys, all_there, total_there, some_there, items_there,
}
use home_budget_pipeline.Receipts.Allocation.{
  MoneyInput, value, MoneyError, money, moneys, Assessment, value_or_zero, item_total_of, no_values,
  item_difference_of, header_difference_of, assess_values, or_invalid, assess, is_off, no_reasons,
  reason_if, item_reasons, header_reasons, missing_item_amounts, item_total_mismatch,
  header_total_mismatch, AllocationReason,
}

-- `IsBalanced`, of the amounts that `money` has read.
abbrev HasBalance : List (Option ℤ) → Option ℤ → Option ℤ → Option ℤ → ℤ → ℤ → Type 0
HasBalance values subtotal tax total charges discount =
    (no_values values ≡ false)
    × (any is_none values ≡ false)
    × (s : ℤ) × (t : ℤ) × (a : ℤ) × (subtotal ≡ some s)
    × (tax ≡ some t)
    × (total ≡ some a)
    × (abs (item_total_of values -ℤ s) ≤ 1)
    × (abs (s +ℤ t +ℤ charges -ℤ discount -ℤ a) ≤ 1)

no_reasons-append :
    (xs ys zs : List AllocationReason)
    → (no_reasons (xs ++ ys ++ zs) ≡ true)
      ↔ ((no_reasons xs ≡ true) × (no_reasons ys ≡ true) × (no_reasons zs ≡ true))
no_reasons-append [] [] zs = (λ h. (refl, refl, h), λ h. h.2)
no_reasons-append [] (y ∷ ys) zs = (λ h. cc, λ h. let e = h.1 in cc)
no_reasons-append (x ∷ xs) ys zs = (λ h. cc, λ h. let e = h.0 in cc)

no_reason_if : (b : Bool) (r : AllocationReason) → (no_reasons (reason_if b r) ≡ true) ↔ (b ≡ false)
no_reason_if b r = ground arith

close_iff : (d : ℤ) → (is_off d ≡ false) ↔ (abs d ≤ 1)
close_iff d = ground arith

-- The reasons that `assess_values` lists are none, part by part.
abbrev HasNoReasons : List (Option ℤ) → Option ℤ → Option ℤ → Option ℤ → ℤ → ℤ → Type 0
HasNoReasons values subtotal tax total charges discount =
    ((no_values values || any is_none values) ≡ false)
    × (no_reasons (item_reasons (item_difference_of (item_total_of values) subtotal)) ≡ true)
    × (no_reasons (header_reasons (header_difference_of subtotal tax total charges discount))
        ≡ true)

reconciled_iff :
    (values : List (Option ℤ)) (subtotal tax total : Option ℤ) (charges discount : ℤ)
    → ((assess_values values subtotal tax total charges discount).reconciled ≡ true)
      ↔ HasNoReasons values subtotal tax total charges discount
unfolding assess_values
reconciled_iff values subtotal tax total c d =
    let a =
      no_reasons-append (reason_if (no_values values || any is_none values) missing_item_amounts)
        (item_reasons (item_difference_of (item_total_of values) subtotal))
        (header_reasons (header_difference_of subtotal tax total c d)) in
    let r = no_reason_if (no_values values || any is_none values) missing_item_amounts in
    (λ h. let (x, y, z) = a.0 h in (r.0 x, y, z), λ h. a.1 (r.1 h.0, h.1, h.2))

or_false : (b c : Bool) → ((b || c) ≡ false) ↔ ((b ≡ false) × (c ≡ false))
or_false b c = ground arith

HasBalance-of :
    (values : List (Option ℤ)) (subtotal tax total : Option ℤ) (c d : ℤ)
    → HasNoReasons values subtotal tax total c d
    → HasBalance values subtotal tax total c d
unfolding item_difference_of header_difference_of
HasBalance-of values none tax total c d h = let e = h.1 in cc
HasBalance-of values (some s) none total c d h = let e = h.2 in cc
HasBalance-of values (some s) (some t) none c d h = let e = h.2 in cc
HasBalance-of values (some s) (some t) (some a) c d h =
    let (x, y) = (or_false (no_values values) (any is_none values)).0 h.0 in
    let i = close_iff (item_total_of values -ℤ s) in
    let t' = close_iff (s +ℤ t +ℤ c -ℤ d -ℤ a) in
    let e = h.1 in let f = h.2 in (x, y, s, t, a, refl, refl, refl, ground arith, ground arith)

not_off : (d : ℤ) (r : AllocationReason) → abs d ≤ 1 → no_reasons (reason_if (is_off d) r) ≡ true
not_off d r h = ground arith

unreasoned_of :
    (values : List (Option ℤ)) (subtotal tax total : Option ℤ) (c d : ℤ)
    → HasBalance values subtotal tax total c d
    → HasNoReasons values subtotal tax total c d
unfolding item_difference_of header_difference_of
unreasoned_of values subtotal tax total c d (x, y, s, t, a, es, et, ea, i, f) =
    rw (es, et, ea)
      (
        (or_false (no_values values) (any is_none values)).1 (x, y),
        not_off (item_total_of values -ℤ s) item_total_mismatch i,
        not_off (s +ℤ t +ℤ c -ℤ d -ℤ a) header_total_mismatch f,
      )

or_invalid-inversion :
    (r : Result MoneyError Assessment)
    → (or_invalid r).reconciled ≡ true
    → (a : Assessment) × (r ≡ returns a) × (a.reconciled ≡ true)
or_invalid-inversion (raises e) h = cc
or_invalid-inversion (returns a) h = (a, refl, h)

reconciled-HasBalance :
    (items : List MoneyInput) (subtotal tax total : MoneyInput) (charges discount : Decimal)
    → (assess items subtotal tax total charges discount).reconciled ≡ true
    → (values : List (Option ℤ)) × (s : Option ℤ) × (t : Option ℤ) × (a : Option ℤ) × (c : Option ℤ)
      × (d : Option ℤ) × (moneys items ≡ returns values)
      × (money subtotal ≡ returns s)
      × (money tax ≡ returns t)
      × (money total ≡ returns a)
      × (money (value charges) ≡ returns c)
      × (money (value discount) ≡ returns d)
      × HasBalance values s t a (value_or_zero c) (value_or_zero d)
unfolding assess
reconciled-HasBalance items subtotal tax total charges discount h =
    let (result, e, ok) = or_invalid-inversion _ h in
    let (values, e0, e1) = bind-inversion (moneys items) _ e in
    let (s, s0, e2) = bind-inversion (money subtotal) _ e1 in
    let (t, t0, e3) = bind-inversion (money tax) _ e2 in
    let (a, a0, e4) = bind-inversion (money total) _ e3 in
    let (c, c0, e5) = bind-inversion (money (value charges)) _ e4 in
    let (d, d0, e6) = bind-inversion (money (value discount)) _ e5 in
    let found : assess_values values s t a (value_or_zero c) (value_or_zero d) ≡ result =
      ground arith in
    let good : (assess_values values s t a (value_or_zero c) (value_or_zero d)).reconciled ≡ true =
      ap (λ (x : Assessment). x.reconciled) found ∙ ok in
    (
      values,
      s,
      t,
      a,
      c,
      d,
      e0,
      s0,
      t0,
      a0,
      c0,
      d0,
      HasBalance-of values s t a (value_or_zero c) (value_or_zero d)
          ((reconciled_iff values s t a (value_or_zero c) (value_or_zero d)).0 good),
    )

-- There is an item; each item has an amount; subtotal, tax and total are amounts; the items add up to
-- the subtotal, and the subtotal, tax and charges less the discount to the total, each within a cent.
abbrev pub IsBalanced :
    List MoneyInput → MoneyInput → MoneyInput → MoneyInput → Decimal → Decimal → Type 0
IsBalanced items subtotal tax total charges discount =
    (0 < length items)
    × (vs : List ℤ) × (s : ℤ) × (t : ℤ) × (a : ℤ) × (c : ℤ) × (d : ℤ) × AreAmounts items vs
    × IsAmount subtotal s
    × IsAmount tax t
    × IsAmount total a
    × IsCents charges c
    × IsCents discount d
    × (abs (sum vs -ℤ s) ≤ 1)
    × (abs (s +ℤ t +ℤ c -ℤ d -ℤ a) ≤ 1)

IsBalanced-of :
    (items : List MoneyInput) (subtotal tax total : MoneyInput) (charges discount : Decimal)
    → (assess items subtotal tax total charges discount).reconciled ≡ true
    → IsBalanced items subtotal tax total charges discount
IsBalanced-of items subtotal tax total charges discount h =
    let (
      values,
      so,
      to,
      ao,
      co,
      off,
      e0,
      s0,
      t0,
      a0,
      c0,
      d0,
      (filled, full, s, t, a, es, et, ea, i, f),
    ) =
      reconciled-HasBalance items subtotal tax total charges discount h in
    let (vs, e, amounts) = moneys-AreAmounts items values e0 full in
    let c = value_or_zero co in
    let d = value_or_zero off in
    (
      items_there items vs amounts (subst (λ x. no_values x ≡ false) e filled),
      vs,
      s,
      t,
      a,
      c,
      d,
      amounts,
      money-IsAmount subtotal s (s0 ∙ ap returns es),
      money-IsAmount tax t (t0 ∙ ap returns et),
      money-IsAmount total a (a0 ∙ ap returns ea),
      number_counts charges co c0,
      number_counts discount off d0,
      subst (λ x. abs (x -ℤ s) ≤ 1) (ap item_total_of e ∙ total_there vs) i,
      f,
    )

reconciled_of :
    (items : List MoneyInput) (subtotal tax total : MoneyInput) (charges discount : Decimal)
    → IsBalanced items subtotal tax total charges discount
    → (assess items subtotal tax total charges discount).reconciled ≡ true
unfolding assess
reconciled_of items subtotal tax total charges discount
      (many, vs, s, t, a, c, d, amounts, is_s, is_t, is_a, is_c, is_d, i, f) =
    rw
      (
        AreAmounts-moneys items vs amounts,
        IsAmount-money subtotal s is_s,
        IsAmount-money tax t is_t,
        IsAmount-money total a is_a,
        IsAmount-money (value charges) c is_c,
        IsAmount-money (value discount) d is_d,
      )
      ((reconciled_iff (map some vs) (some s) (some t) (some a) c d).1 (
        unreasoned_of (map some vs) (some s) (some t) (some a) c d (
          some_there items vs amounts many,
          all_there vs,
          s,
          t,
          a,
          refl,
          refl,
          refl,
          subst (λ x. abs (x -ℤ s) ≤ 1) (sym (total_there vs)) i,
          f,
        )))

-- A receipt is reconciled exactly when it has an item, each item has an amount, and subtotal, tax,
-- total, charges and discount are amounts, all of them finite decimals that are a whole number of
-- cents of at most 28 digits, and when the items differ from the subtotal by at most one cent, and
-- the subtotal with tax and charges less the discount from the total by at most one cent.
pub assess-IsBalanced :
    (items : List MoneyInput) (subtotal tax total : MoneyInput) (charges discount : Decimal)
    → ((assess items subtotal tax total charges discount).reconciled ≡ true)
      ↔ IsBalanced items subtotal tax total charges discount
assess-IsBalanced items subtotal tax total charges discount = (
  IsBalanced-of items subtotal tax total charges discount,
  reconciled_of items subtotal tax total charges discount,
)
