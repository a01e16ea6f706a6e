-- ===== src/Transactions/Allocations/Save.antt =====
-- transactions/workflows.py, `allocation_rows` and `save_allocations`.
pub mod Plan
pub mod Laws
use home_budget_pipeline.Prelude.{
  ℕ, ◌+◌, Bool, false, not, ◌&&◌, ◌||◌, Option, none, some, List, [], ◌∷◌, leb, ◌==◌, if◌then◌else◌,
  length, any, max, is_some,
}
use home_budget_pipeline.Prelude.Int.{ℤ}
use home_budget_pipeline.Prelude.Text.{Text, codes, truthy, strip, ◌==ₜ◌}
use home_budget_pipeline.Prelude.Table.{Table, lookup, upsert}
use home_budget_pipeline.Prelude.Result.{returns, raises, ◌>>=◌, ◌>>◌, require}
use home_budget_pipeline.Transactions.Allocations.{
  RowInput, Allocation, Checked, normalize_allocations, version_required, actor_and_reason_required,
  transaction_not_found, card_payment, allocations_changed, currency_not_verified,
  receipt_connection_required, expense_missing, receipt_identity_changed, new_link_needs_expense,
}

-- The columns of accounting.financial_transactions that are read; `kind` is a key of `raw_source`.
pub record BankTransaction : Type 0 where
  pub amount : ℤ
  pub currency : Text
  pub kind : Option Text

pub record AuditEntry : Type 0 where
  pub version : ℕ
  pub actor : Text
  pub reason : Text
  pub before : List Allocation
  pub after : List Allocation

-- accounting.financial_transactions, transaction_allocations and transaction_allocation_audit, each
-- keyed by the transaction.
pub record Db : Type 0 where
  pub transactions : Table BankTransaction
  pub allocations : Table (List Allocation)
  pub audit : Table (List AuditEntry)

-- The receipt service: the content hash of an expense's primary live evidence, if there is any.
abbrev pub ReceiptService : Type 0
ReceiptService = ℕ → Option Text

pub record SaveRequest : Type 0 where
  pub transaction_id : ℕ
  pub rows : List RowInput
  -- `none` is no integer, or a negative one.
  pub expected_version : Option ℕ
  pub actor : Text
  pub reason : Text
  pub receipt_service : Option ReceiptService

-- What the checks settle before anything is written.
pub record SavePlan : Type 0 where
  pub before : List Allocation
  pub version : ℕ
  pub after : List Allocation

pub record SaveResult : Type 0 where
  pub transaction_id : ℕ
  pub version : ℕ
  pub allocations : List Allocation
  pub applied : Bool

abbrev pub rows_or_empty {ℓ} : {A : Type ℓ} → Option (List A) → List A
rows_or_empty none = []
rows_or_empty (some l) = l

-- `COALESCE(MAX(version), 0)`
unfoldable pub latest_version : List AuditEntry → ℕ
latest_version [] = 0
latest_version (e ∷ es) = max e.version (latest_version es)

-- `allocation_rows`
unfoldable pub allocation_rows : Db → ℕ → List Allocation × ℕ
unfolding latest_version
allocation_rows db transaction_id = (
  rows_or_empty (lookup transaction_id db.allocations),
  latest_version (rows_or_empty (lookup transaction_id db.audit)),
)

pub has_sha : Text → Allocation → Bool
has_sha sha a = elim a.receipt_source_sha256 [ none ↦ false | some s ↦ s ==ₜ sha ]

-- The evidence of the chosen expense against the hash that the request names.
unfoldable pub confirm_link : Option Text → Allocation → Checked Allocation
confirm_link none r = raises expense_missing
confirm_link (some sha) r = elim r.receipt_source_sha256 [
  | none ↦ returns (record r { receipt_source_sha256 = some sha })
  | some named ↦
      if named ==ₜ sha
      then returns (record r { receipt_source_sha256 = some sha })
      else raises receipt_identity_changed
]

pub link_with : Option ReceiptService → ℕ → Allocation → Checked Allocation
unfolding confirm_link
link_with none expense_pk r = raises receipt_connection_required
link_with (some service) expense_pk r = confirm_link (service expense_pk) r

pub keep_link : Option Text → List Allocation → Allocation → Checked Allocation
unfolding has_sha any
keep_link none before r = returns r
keep_link (some sha) before r =
    if any (has_sha sha) before then returns r else raises new_link_needs_expense

unfoldable pub link_by :
    Option ℕ → Option ReceiptService → List Allocation → Allocation → Checked Allocation
unfolding link_with keep_link
link_by (some expense_pk) service before r = link_with service expense_pk r
link_by none service before r = keep_link r.receipt_source_sha256 before r

-- The loop body over the normalized rows.
unfoldable pub link_row : Option ReceiptService → List Allocation → Allocation → Checked Allocation
unfolding link_by
link_row service before r = link_by r.expense_pk service before r

unfoldable pub link_rows :
    Option ReceiptService → List Allocation → List Allocation → Checked (List Allocation)
unfolding link_row
link_rows service before [] = returns []
link_rows service before (r ∷ rs) =
    let rest = link_rows service before rs in
    do a ← link_row service before r; as' ← rest; returns (a ∷ as')

pub is_payment : BankTransaction → Bool
is_payment tx = elim tx.kind [ none ↦ false | some k ↦ k ==ₜ codes "payment" ]

pub is_linked : Allocation → Bool
is_linked r = is_some r.expense_pk || is_some r.receipt_source_sha256

-- The checks on the locked transaction.
unfoldable pub plan_for : SaveRequest → ℕ → BankTransaction → Db → Checked SavePlan
unfolding is_payment is_linked allocation_rows link_rows any
plan_for q expected_version tx db = do
  require (not (is_payment tx)) card_payment
  let (before, version) = allocation_rows db q.transaction_id
  require (version == expected_version) allocations_changed
  normalized ← normalize_allocations q.rows tx.amount
  require (tx.currency ==ₜ codes "CAD" || not (any is_linked normalized)) currency_not_verified
  after ← link_rows q.receipt_service before normalized
  returns (record { before = before; version = version; after = after })

pub found : Option BankTransaction → Checked BankTransaction
found none = raises transaction_not_found
found (some tx) = returns tx

pub given_version : Option ℕ → Checked ℕ
given_version none = raises version_required
given_version (some v) = returns v

-- Every check of `save_allocations`, in its order.
unfoldable pub plan_save : SaveRequest → Db → Checked SavePlan
unfolding plan_for found given_version strip
plan_save q db = do
  expected ← given_version q.expected_version
  require (truthy (strip q.actor) && truthy (strip q.reason) && leb (length q.reason) 2000)
      actor_and_reason_required
  tx ← found (lookup q.transaction_id db.transactions)
  plan_for q expected tx db

-- The writes: the rows are replaced, and an audit row with the next version is added.
unfoldable pub write_plan : SaveRequest → SavePlan → Db → Db
write_plan q p db = record db {
  allocations = upsert q.transaction_id p.after db.allocations;
  audit =
      upsert q.transaction_id
        (record {
          version = p.version + 1;
          actor = q.actor;
          reason = q.reason;
          before = p.before;
          after = p.after;
        }
          ∷ rows_or_empty (lookup q.transaction_id db.audit))
        db.audit;
}

-- An error leaves the transaction block, which rolls back; a preview writes nothing.
unfoldable pub commit_plan : SaveRequest → Bool → Checked SavePlan → Db → Checked SaveResult × Db
unfolding write_plan
commit_plan q apply (raises e) db = (raises e, db)
commit_plan q apply (returns p) db = (
  returns (record {
    transaction_id = q.transaction_id;
    version = if apply then p.version + 1 else p.version;
    allocations = p.after;
    applied = apply;
  }),
  if apply then write_plan q p db else db,
)

-- `save_allocations`
unfoldable pub save_allocations : SaveRequest → Bool → Db → Checked SaveResult × Db
unfolding plan_save commit_plan
save_allocations q apply db = commit_plan q apply (plan_save q db) db
