-- ===== src/Transactions/Allocations/Normalize.antt =====
-- What accepted allocations satisfy.
use home_budget_pipeline.Prelude.{
  ℕ, suc, ◌+◌, ◌≤◌, ◌≡◌, ap, ◌≢◌, Bool, true, not, Option, none, some, arith, List, [], ◌∷◌, length,
  leb, ◌&&◌,
}
use home_budget_pipeline.Prelude.Int.{ℤ, pos, sum, ◌==ℤ◌, ==ℤ_iff}
use home_budget_pipeline.Prelude.Text.{Text, truthy, length-strip-le}
use home_budget_pipeline.Prelude.Decimal.{Decimal}
use home_budget_pipeline.Prelude.Result.{returns, bind-inversion, require-inversion}
use home_budget_pipeline.Transactions.Allocations.{
  RowInput, not_dict, dict, Allocation, is_positive, checked_amount, checked_category,
  normalize_row, normalize_from, normalize_allocations, amounts, same, unsupported_fields, bad_sign,
  bad_row_count, sum_mismatch, bad_person, bad_note, checked_expense, checked_optional, checked_sha,
  TextInput, text, null, other,
}

-- A single allocation that may be stored under a bank amount.
pub record IsAllocationOf (total : ℤ) (number : ℕ) (a : Allocation) : Type 0 where
  pub numbered : a.allocation_number ≡ number
  pub nonzero : a.amount ≢ pos 0
  pub signed : is_positive a.amount ≡ is_positive total
  pub categorized : truthy a.category ≡ true
  pub short_category : length a.category ≤ 200

-- Allocations with consecutive numbers.
abbrev pub Numbered : ℤ → ℕ → List Allocation → Type 0
Numbered total number [] = Unit
Numbered total number (a ∷ l) = IsAllocationOf total number a × Numbered total (number + 1) l

checked_amount-nonzero : (d : Option Decimal) (a : ℤ) → checked_amount d ≡ returns a → a ≢ pos 0
unfolding checked_amount
checked_amount-nonzero none a h = cc
checked_amount-nonzero (some d) a h = ground (arith, ==ℤ_iff a (pos 0))

checked_category-good :
    (c : TextInput) (category : Text)
    → checked_category c ≡ returns category
    → (truthy category ≡ true) × (length category ≤ 200)
checked_category-good null category h = unfold checked_category in cc
checked_category-good other category h = unfold checked_category in cc
checked_category-good (text t) category h =
    unfold checked_category in ground (arith, length-strip-le t)

same-eq : (a b : Bool) → same a b ≡ true → a ≡ b
same-eq a b h = ground arith

normalize_row-IsAllocationOf :
    (total : ℤ) (number : ℕ) (row : RowInput) (a : Allocation)
    → normalize_row total number row ≡ returns a
    → IsAllocationOf total number a
unfolding normalize_row
normalize_row-IsAllocationOf total number not_dict a h = cc
normalize_row-IsAllocationOf total number (dict row) a h =
    let (fields, h) = require-inversion (not row.has_other_fields) unsupported_fields _ h in
    let (amount, e_amount, h) = bind-inversion (checked_amount row.amount) _ h in
    let (sign, h) =
      require-inversion (same (is_positive amount) (is_positive total)) bad_sign _ h in
    let (category, e_category, h) = bind-inversion (checked_category row.category) _ h in
    let (expense_pk, e_expense, h) = bind-inversion (checked_expense row.expense_pk) _ h in
    let (person, e_person, h) = bind-inversion (checked_optional bad_person row.person) _ h in
    let (note, e_note, h) = bind-inversion (checked_optional bad_note row.note) _ h in
    let (sha, e_sha, h) = bind-inversion (checked_sha row.receipt_source_sha256) _ h in
    ground (
      arith,
      checked_amount-nonzero row.amount amount e_amount,
      checked_category-good row.category category e_category,
      same-eq (is_positive amount) (is_positive total) sign,
    )

normalize_from-Numbered :
    (total : ℤ) (number : ℕ) (rows : List RowInput) (l : List Allocation)
    → normalize_from total number rows ≡ returns l
    → Numbered total number l × (length l ≡ length rows)
unfolding normalize_from
normalize_from-Numbered total number [] l h = ground arith
normalize_from-Numbered total number (row ∷ rows) l h =
    let (a, e_a, h) = bind-inversion (normalize_row total number row) _ h in
    let (rest, e_rest, h) = bind-inversion (normalize_from total (number + 1) rows) _ h in
    let (all_numbered, same_length) = normalize_from-Numbered total (number + 1) rows rest e_rest in
    let cons_eq : l ≡ a ∷ rest = cc in
    rw cons_eq
      ((normalize_row-IsAllocationOf total number row a e_a, all_numbered), ap suc same_length)

-- Accepted allocations are between 1 and 100, one for each row, numbered from 1; each is nonzero,
-- has the sign of the bank amount and a category of 1 to 200 characters; and their sum is exactly
-- the bank amount.
pub normalize_allocations-balanced :
    (rows : List RowInput) (total : ℤ) (l : List Allocation)
    → normalize_allocations rows total ≡ returns l
    → (sum (amounts l) ≡ total)
      × Numbered total 1 l
      × (length l ≡ length rows)
      × (1 ≤ length l)
      × (length l ≤ 100)
unfolding normalize_allocations
normalize_allocations-balanced rows total l h =
    let (count, h) =
      require-inversion (leb 1 (length rows) && leb (length rows) 100) bad_row_count _ h in
    let (result, e, h) = bind-inversion (normalize_from total 1 rows) _ h in
    let (balance, h) = require-inversion (sum (amounts result) ==ℤ total) sum_mismatch _ h in
    let same_list : result ≡ l = cc in
    let e : normalize_from total 1 rows ≡ returns l = rw (← same_list) e in
    let (numbered, same_length) = normalize_from-Numbered total 1 rows l e in
    (
      (==ℤ_iff (sum (amounts l)) total).0 (rw (← same_list) balance),
      numbered,
      same_length,
      ground arith,
      ground arith,
    )
