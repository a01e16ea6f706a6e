-- ===== src/Transactions/Allocations/Examples.antt =====
-- Runs of the allocation editor, and instances of its theorems.
use home_budget_pipeline.Prelude.{
  ℕ, ◌+◌, ◌≤◌, ◌≡◌, refl, ◌≢◌, true, false, none, some, List, [], ◌∷◌, length,
}
use home_budget_pipeline.Prelude.Int.{ℤ, pos, sum}
use home_budget_pipeline.Prelude.Text.{codes}
use home_budget_pipeline.Prelude.Decimal.{finite}
use home_budget_pipeline.Prelude.Table.{lookup}
use home_budget_pipeline.Prelude.Result.{returns, raises}
use home_budget_pipeline.Transactions.Allocations.{
  RowInput, dict, Allocation, normalize_allocations, amounts, sum_mismatch, TextInput, PkInput,
}
use home_budget_pipeline.Transactions.Allocations.Normalize.{
  Numbered, normalize_allocations-balanced,
}
use home_budget_pipeline.Transactions.Allocations.Save.{
  BankTransaction, Db, SaveRequest, SaveResult, save_allocations,
}
use home_budget_pipeline.Transactions.Allocations.Save.Laws.{
  stored, version_of, save_applies, save_detects_conflict,
}

-- 12.5 and 7.50 for 20.00
abbrev split : ℤ → ℕ → RowInput
split coefficient places = dict (record {
  has_other_fields = false;
  amount = some (finite coefficient places);
  category = TextInput.text (codes " Groceries ");
  person = TextInput.null;
  expense_pk = PkInput.null;
  note = TextInput.text (codes "shared");
  receipt_source_sha256 = TextInput.null;
})

abbrev splits : List RowInput
splits = split (pos 125) 1 ∷ split (pos 750) 2 ∷ []

abbrev part : ℕ → ℕ → Allocation
part number amount = record {
  allocation_number = number;
  amount = pos amount;
  category = codes "Groceries";
  person = none;
  expense_pk = none;
  note = codes "shared";
  receipt_source_sha256 = none;
}

abbrev parts : List Allocation
parts = part 1 1250 ∷ part 2 750 ∷ []

splits_normalized : normalize_allocations splits (pos 2000) ≡ returns parts
unfolding normalize_allocations
splits_normalized = refl

splits_unbalanced : normalize_allocations splits (pos 2001) ≡ raises sum_mismatch
unfolding normalize_allocations
splits_unbalanced = refl

normalize_allocations-balanced_example :
    (sum (amounts parts) ≡ pos 2000)
    × Numbered (pos 2000) 1 parts
    × (length parts ≡ length splits)
    × (1 ≤ length parts)
    × (length parts ≤ 100)
normalize_allocations-balanced_example =
    normalize_allocations-balanced splits (pos 2000) parts splits_normalized

abbrev ledger : Db
ledger = record {
  transactions = (5, record { amount = pos 2000; currency = codes "CAD"; kind = none }) ∷ [];
  allocations = [];
  audit = [];
}

abbrev request : SaveRequest
request = record {
  transaction_id = 5;
  rows = splits;
  expected_version = some 0;
  actor = codes "paul";
  reason = codes "split the bill";
  receipt_service = none;
}

abbrev saved : SaveResult
saved = record { transaction_id = 5; version = 1; allocations = parts; applied = true }

request-saved : (save_allocations request true ledger).0 ≡ returns saved
unfolding save_allocations normalize_allocations lookup
request-saved = refl

save_applies_example :
    (tx : BankTransaction) × (v : ℕ) × (lookup 5 ledger.transactions ≡ some tx)
    × (some 0 ≡ some v)
    × (version_of ledger 5 ≡ v)
    × (1 ≡ v + 1)
    × (version_of (save_allocations request true ledger).1 5 ≡ v + 1)
    × (stored (save_allocations request true ledger).1 5 ≡ parts)
    × (sum (amounts parts) ≡ tx.amount)
    × ((k : ℕ) → k ≢ 5 → stored (save_allocations request true ledger).1 k ≡ stored ledger k)
save_applies_example = save_applies request ledger saved request-saved

save_detects_conflict_example :
    (save_allocations request true (save_allocations request true ledger).1).0 ≢ returns saved
save_detects_conflict_example =
    save_detects_conflict request request true ledger saved saved request-saved refl refl
