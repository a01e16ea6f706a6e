-- ===== src/Receipts/Allocation/Examples.antt =====
-- Runs of the assessment, and an instance of its theorem.
use home_budget_pipeline.Prelude.{ℕ, ◌≡◌, refl, ◌↔◌, true, List, [], ◌∷◌, any}
use home_budget_pipeline.Prelude.Decimal.{finite, to_cents, whole_cents, signed_cents}
use home_budget_pipeline.Prelude.Int.{pos, ◌+ℤ◌, ◌-ℤ◌, sum}
use home_budget_pipeline.Receipts.Allocation.{
  MoneyInput, value, null, money, moneys, item_total_of, item_difference_of, header_difference_of,
  assess_values, assess, missing_item_amounts,
}
use home_budget_pipeline.Receipts.Allocation.Laws.{IsBalanced, assess-IsBalanced}

abbrev dollars : ℕ → MoneyInput
dollars n = value (finite (pos n) 0)

-- 1.5 + 2 = 3.50, and 3.50 + 0.45 = 3.95.
abbrev shop_items : List MoneyInput
shop_items = value (finite (pos 15) 1) ∷ dollars 2 ∷ []

shop_reconciled :
    (assess shop_items
      (value (finite (pos 350) 2))
      (value (finite (pos 45) 2))
      (value (finite (pos 395) 2))
      (finite (pos 0) 0)
      (finite (pos 0) 0)).reconciled
    ≡ true
unfolding assess assess_values moneys money to_cents whole_cents signed_cents item_total_of
    item_difference_of header_difference_of any sum ◌+ℤ◌ ◌-ℤ◌
shop_reconciled = refl

missing_item :
    (assess
      (null ∷ [])
      (dollars 0)
      (dollars 0)
      (dollars 0)
      (finite (pos 0) 0)
      (finite (pos 0) 0)).reasons
    ≡ missing_item_amounts ∷ []
unfolding assess assess_values moneys money to_cents whole_cents signed_cents item_total_of
    item_difference_of header_difference_of any sum ◌+ℤ◌ ◌-ℤ◌
missing_item = refl

assess-IsBalanced_example :
    ((assess shop_items
        (dollars 3)
        (dollars 0)
        (dollars 3)
        (finite (pos 0) 0)
        (finite (pos 0) 0)).reconciled
      ≡ true)
    ↔ IsBalanced shop_items
        (dollars 3)
        (dollars 0)
        (dollars 3)
        (finite (pos 0) 0)
        (finite (pos 0) 0)
assess-IsBalanced_example =
    assess-IsBalanced shop_items (dollars 3) (dollars 0) (dollars 3) (finite (pos 0) 0)
      (finite (pos 0) 0)
