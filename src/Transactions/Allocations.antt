-- ===== src/Transactions/Allocations.antt =====
-- transactions/workflows.py: balanced allocations of a bank transaction, saved under an expected
-- version with an audit trail. Amounts in the database are integers of cents.
pub mod Normalize
pub mod Save
mod Examples
use home_budget_pipeline.Prelude.{
  ℕ, suc, ◌+◌, Bool, true, false, not, ◌&&◌, ◌||◌, Option, none, some, List, [], ◌∷◌, map, leb,
  ◌==◌, if◌then◌else◌, length, all,
}
use home_budget_pipeline.Prelude.Int.{ℤ, pos, ◌==ℤ◌, ltb_ℤ, sum, ◌+ℤ◌}
use home_budget_pipeline.Prelude.Text.{Text, truthy, strip}
use home_budget_pipeline.Prelude.Decimal.{Decimal, to_cents}
use home_budget_pipeline.Prelude.Result.{Result, returns, raises, ◌>>=◌, ◌>>◌, require}

-- A JSON value where text or null is wanted.
pub data TextInput : Type 0 where
  null : TextInput
  text : Text → TextInput
  other : TextInput

-- A JSON value where an expense key or null is wanted.
pub data PkInput : Type 0 where
  null : PkInput
  int : ℤ → PkInput
  other : PkInput

-- A row of the request. `amount` is what `Decimal(str(…))` gives, `none` where it raises.
pub record AllocationInput : Type 0 where
  pub has_other_fields : Bool
  pub amount : Option Decimal
  pub category : TextInput
  pub person : TextInput
  pub expense_pk : PkInput
  pub note : TextInput
  pub receipt_source_sha256 : TextInput

pub data RowInput : Type 0 where
  not_dict : RowInput
  dict : AllocationInput → RowInput

pub record Allocation : Type 0 where
  pub allocation_number : ℕ
  pub amount : ℤ
  pub category : Text
  pub person : Option Text
  pub expense_pk : Option ℕ
  pub note : Text
  pub receipt_source_sha256 : Option Text

pub data AllocationError : Type 0 where
  bad_row_count unsupported_fields bad_amount bad_sign bad_category bad_expense bad_person bad_note
        bad_sha sum_mismatch version_required actor_and_reason_required transaction_not_found
        card_payment allocations_changed currency_not_verified receipt_connection_required
        expense_missing receipt_identity_changed new_link_needs_expense :
      AllocationError

abbrev pub Checked : Type 0 → Type 0
Checked A = Result AllocationError A

-- `amount > 0`
abbrev pub is_positive : ℤ → Bool
is_positive a = ltb_ℤ (pos 0) a

abbrev pub same : Bool → Bool → Bool
same true b = b
same false b = not b

-- The `try` block on the amount: finite, not zero, in whole cents.
unfoldable pub checked_amount : Option Decimal → Checked ℤ
unfolding to_cents
checked_amount none = raises bad_amount
checked_amount (some d) = elim (to_cents d) [
  | none ↦ raises bad_amount
  | some a ↦ if a ==ℤ pos 0 then raises bad_amount else returns a
]

unfoldable pub checked_category : TextInput → Checked Text
unfolding strip
checked_category (text c) =
    if truthy (strip c) && leb (length c) 200 then returns (strip c) else raises bad_category
checked_category _ = raises bad_category

unfoldable pub checked_expense : PkInput → Checked (Option ℕ)
checked_expense null = returns none
checked_expense (int (pos (suc n))) = returns (some (suc n))
checked_expense _ = raises bad_expense

-- `person` and `note`: null, or at most 2000 characters.
unfoldable pub checked_optional : AllocationError → TextInput → Checked Text
checked_optional e null = returns []
checked_optional e (text t) = if leb (length t) 2000 then returns t else raises e
checked_optional e other = raises e

abbrev pub is_hex : ℕ → Bool
is_hex c = (leb b'0' c && leb c b'9') || (leb b'a' c && leb c b'f')

-- `re.fullmatch('[0-9a-f]{64}', sha)`
unfoldable pub is_sha256 : Text → Bool
unfolding all
is_sha256 t = length t == 64 && all is_hex t

unfoldable pub checked_sha : TextInput → Checked (Option Text)
unfolding is_sha256
checked_sha null = returns none
checked_sha (text t) = if is_sha256 t then returns (some t) else raises bad_sha
checked_sha other = raises bad_sha

-- `text or None`
abbrev or_none : Text → Option Text
or_none t = if truthy t then some t else none

-- The body of the loop of `normalize_allocations`, for the row with this number.
unfoldable pub normalize_row : ℤ → ℕ → RowInput → Checked Allocation
unfolding checked_amount checked_category checked_expense checked_optional checked_sha strip
normalize_row total number not_dict = raises unsupported_fields
normalize_row total number (dict row) = do
  require (not row.has_other_fields) unsupported_fields
  amount ← checked_amount row.amount
  require (same (is_positive amount) (is_positive total)) bad_sign
  category ← checked_category row.category
  expense_pk ← checked_expense row.expense_pk
  person ← checked_optional bad_person row.person
  note ← checked_optional bad_note row.note
  sha ← checked_sha row.receipt_source_sha256
  returns (record {
    allocation_number = number;
    amount = amount;
    category = category;
    person = or_none (strip person);
    expense_pk = expense_pk;
    note = strip note;
    receipt_source_sha256 = sha;
  })

unfoldable pub normalize_from : ℤ → ℕ → List RowInput → Checked (List Allocation)
unfolding normalize_row
normalize_from total number [] = returns []
normalize_from total number (row ∷ rows) =
    let rest = normalize_from total (number + 1) rows in
    do a ← normalize_row total number row; as' ← rest; returns (a ∷ as')

abbrev pub amounts : List Allocation → List ℤ
amounts l = map (λ (a : Allocation). a.amount) l

-- `normalize_allocations`
unfoldable pub normalize_allocations : List RowInput → ℤ → Checked (List Allocation)
unfolding normalize_from sum ◌+ℤ◌
normalize_allocations rows total = do
  require (leb 1 (length rows) && leb (length rows) 100) bad_row_count
  result ← normalize_from total 1 rows
  require (sum (amounts result) ==ℤ total) sum_mismatch
  returns result
