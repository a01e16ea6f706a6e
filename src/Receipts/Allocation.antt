-- ===== src/Receipts/Allocation.antt =====
-- receipts/allocation.py: whether the items of a receipt account for its totals. Amounts are cents.
pub mod Amounts
pub mod Laws
mod Examples
use home_budget_pipeline.Prelude.{
  Bool, true, false, ◌||◌, Option, none, some, List, [], ◌∷◌, ◌++◌, map, any, ltb, is_none,
  if◌then◌else◌,
}
use home_budget_pipeline.Prelude.Decimal.{Decimal, to_cents}
use home_budget_pipeline.Prelude.Int.{ℤ, pos, ◌+ℤ◌, ◌-ℤ◌, abs, sum}
use home_budget_pipeline.Prelude.Result.{Result, raises, returns, ◌>>=◌, ◌>>◌}

-- A value as it is given: missing, a decimal, or something that is no number.
pub data MoneyInput : Type 0 where
  null no_number : MoneyInput
  value : Decimal → MoneyInput

pub data AllocationReason : Type 0 where
  missing_item_amounts missing_allocation_subtotal item_total_mismatch header_total_mismatch
        unverified_header_total invalid_allocation_amount :
      AllocationReason

-- The `ValueError` of `money`.
pub data MoneyError : Type 0 where
  not_in_cents : MoneyError

abbrev pub in_cents : Option ℤ → Result MoneyError (Option ℤ)
in_cents none = raises not_in_cents
in_cents (some m) = returns (some m)

-- `money`
unfoldable pub money : MoneyInput → Result MoneyError (Option ℤ)
unfolding to_cents
money null = returns none
money no_number = raises not_in_cents
money (value d) = in_cents (to_cents d)

-- `[money(i.get('line_total')) for i in items]`
unfoldable pub moneys : List MoneyInput → Result MoneyError (List (Option ℤ))
unfolding money
moneys [] = returns []
moneys (x ∷ xs) = do v ← money x; vs ← moneys xs; returns (v ∷ vs)

pub record Assessment : Type 0 where
  pub reconciled : Bool
  pub reasons : List AllocationReason
  pub item_total : Option ℤ
  pub subtotal : Option ℤ
  pub item_difference : Option ℤ
  pub header_difference : Option ℤ

abbrev pub value_or_zero : Option ℤ → ℤ
value_or_zero none = pos 0
value_or_zero (some v) = v

-- The sum of the amounts that are there.
unfoldable pub item_total_of : List (Option ℤ) → ℤ
unfolding sum
item_total_of values = sum (map value_or_zero values)

abbrev pub no_values : List (Option ℤ) → Bool
no_values [] = true
no_values (_ ∷ _) = false

abbrev pub reason_if : Bool → AllocationReason → List AllocationReason
reason_if b r = if b then r ∷ [] else []

-- More than one cent.
abbrev pub is_off : ℤ → Bool
is_off d = ltb 1 (abs d)

unfoldable pub item_difference_of : ℤ → Option ℤ → Option ℤ
item_difference_of item_total none = none
item_difference_of item_total (some s) = some (item_total -ℤ s)

unfoldable pub header_difference_of : Option ℤ → Option ℤ → Option ℤ → ℤ → ℤ → Option ℤ
header_difference_of (some s) (some tax) (some total) charges discount =
    some (s +ℤ tax +ℤ charges -ℤ discount -ℤ total)
header_difference_of _ _ _ charges discount = none

abbrev pub item_reasons : Option ℤ → List AllocationReason
item_reasons none = missing_allocation_subtotal ∷ []
item_reasons (some d) = reason_if (is_off d) item_total_mismatch

abbrev pub header_reasons : Option ℤ → List AllocationReason
header_reasons none = unverified_header_total ∷ []
header_reasons (some d) = reason_if (is_off d) header_total_mismatch

abbrev pub no_reasons : List AllocationReason → Bool
no_reasons [] = true
no_reasons (_ ∷ _) = false

-- The result for amounts that `money` has accepted; the charges and the discount are given.
unfoldable pub assess_values : List (Option ℤ) → Option ℤ → Option ℤ → Option ℤ → ℤ → ℤ → Assessment
unfolding item_total_of item_difference_of header_difference_of any
assess_values values subtotal tax total charges discount =
    let item_total = item_total_of values in
    let items = item_difference_of item_total subtotal in
    let header = header_difference_of subtotal tax total charges discount in
    let reasons =
      reason_if (no_values values || any is_none values) missing_item_amounts
      ++ item_reasons items
      ++ header_reasons header in
    record {
      reconciled = no_reasons reasons;
      reasons = reasons;
      item_total = some item_total;
      subtotal = subtotal;
      item_difference = items;
      header_difference = header;
    }

abbrev pub invalid_assessment : Assessment
invalid_assessment = record {
  reconciled = false;
  reasons = invalid_allocation_amount ∷ [];
  item_total = none;
  subtotal = none;
  item_difference = none;
  header_difference = none;
}

abbrev pub or_invalid : Result MoneyError Assessment → Assessment
or_invalid (raises e) = invalid_assessment
or_invalid (returns a) = a

-- `assess`, with numbers as the charges and the discount.
unfoldable pub assess :
    List MoneyInput → MoneyInput → MoneyInput → MoneyInput → Decimal → Decimal → Assessment
unfolding moneys money assess_values
assess items subtotal tax total charges discount = or_invalid (do
  values ← moneys items
  s ← money subtotal
  t ← money tax
  all ← money total
  c ← money (value charges)
  d ← money (value discount)
  returns (assess_values values s t all (value_or_zero c) (value_or_zero d)))
