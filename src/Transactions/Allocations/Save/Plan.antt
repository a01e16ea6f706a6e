-- ===== src/Transactions/Allocations/Save/Plan.antt =====
-- What the checks of a save establish before anything is written.
use home_budget_pipeline.Prelude.{
  ℕ, ◌≡◌, refl, sym, ap, subst, ◌∙◌, false, not, ◌&&◌, ◌||◌, Option, none, some, arith, List, [],
  ◌∷◌, length, leb, ==_iff, ◌==◌, any,
}
use home_budget_pipeline.Prelude.Text.{Text, truthy, strip, codes, ◌==ₜ◌}
use home_budget_pipeline.Prelude.Table.{lookup}
use home_budget_pipeline.Prelude.Result.{returns, bind-inversion, require-inversion}
use home_budget_pipeline.Transactions.Allocations.{
  Allocation, normalize_allocations, amounts, card_payment, allocations_changed,
  currency_not_verified, actor_and_reason_required,
}
use home_budget_pipeline.Transactions.Allocations.Save.{
  BankTransaction, Db, ReceiptService, SaveRequest, SavePlan, rows_or_empty, latest_version,
  confirm_link, link_with, keep_link, link_by, link_row, link_rows, is_payment, is_linked, plan_for,
  found, given_version, plan_save,
}

confirm_link-amount :
    (o : Option Text) (r a : Allocation) → confirm_link o r ≡ returns a → a.amount ≡ r.amount
unfolding confirm_link
confirm_link-amount none r a h = cc
confirm_link-amount (some sha) r a h = ground arith

link_with-amount :
    (service : Option ReceiptService) (pk : ℕ) (r a : Allocation)
    → link_with service pk r ≡ returns a
    → a.amount ≡ r.amount
unfolding link_with
link_with-amount none pk r a h = cc
link_with-amount (some service) pk r a h = confirm_link-amount (service pk) r a h

keep_link-amount :
    (o : Option Text) (before : List Allocation) (r a : Allocation)
    → keep_link o before r ≡ returns a
    → a.amount ≡ r.amount
unfolding keep_link
keep_link-amount none before r a h = ground arith
keep_link-amount (some sha) before r a h = ground arith

link_by-amount :
    (o : Option ℕ) (service : Option ReceiptService) (before : List Allocation) (r a : Allocation)
    → link_by o service before r ≡ returns a
    → a.amount ≡ r.amount
unfolding link_by
link_by-amount (some pk) service before r a h = link_with-amount service pk r a h
link_by-amount none service before r a h = keep_link-amount r.receipt_source_sha256 before r a h

link_row-amount :
    (service : Option ReceiptService) (before : List Allocation) (r a : Allocation)
    → link_row service before r ≡ returns a
    → a.amount ≡ r.amount
unfolding link_row
link_row-amount service before r a h = link_by-amount r.expense_pk service before r a h

pub link_rows-amounts :
    (service : Option ReceiptService) (before l k : List Allocation)
    → link_rows service before l ≡ returns k
    → amounts k ≡ amounts l
unfolding link_rows
link_rows-amounts service before [] k h = ground arith
link_rows-amounts service before (r ∷ rs) k h =
    let (a, e, h) = bind-inversion (link_row service before r) _ h in
    let (as', e', h) = bind-inversion (link_rows service before rs) _ h in
    let same : k ≡ a ∷ as' = cc in
    rw same (cc (link_row-amount service before r a e, link_rows-amounts service before rs as' e'))

-- The facts that a settled plan rests on.
pub record IsPlanFor (q : SaveRequest) (db : Db) (p : SavePlan) : Type 0 where
  pub tx : BankTransaction
  pub normalized : List Allocation
  pub transaction : lookup q.transaction_id db.transactions ≡ some tx
  pub expected : q.expected_version ≡ some p.version
  pub current : latest_version (rows_or_empty (lookup q.transaction_id db.audit)) ≡ p.version
  pub previous : rows_or_empty (lookup q.transaction_id db.allocations) ≡ p.before
  pub accepted : normalize_allocations q.rows tx.amount ≡ returns normalized
  pub linked : link_rows q.receipt_service p.before normalized ≡ returns p.after
  pub expense : is_payment tx ≡ false

plan_for-IsPlanFor :
    (q : SaveRequest) (v : ℕ) (tx : BankTransaction) (db : Db) (p : SavePlan)
    → lookup q.transaction_id db.transactions ≡ some tx
    → q.expected_version ≡ some v
    → plan_for q v tx db ≡ returns p
    → IsPlanFor q db p
unfolding plan_for
plan_for-IsPlanFor q v tx db p et ev h =
    let before = rows_or_empty (lookup q.transaction_id db.allocations) in
    let version = latest_version (rows_or_empty (lookup q.transaction_id db.audit)) in
    let (expense, h) = require-inversion (not (is_payment tx)) card_payment _ h in
    let (same_version, h) = require-inversion (version == v) allocations_changed _ h in
    let (l, e_l, h) = bind-inversion (normalize_allocations q.rows tx.amount) _ h in
    let (currency, h) =
      require-inversion (tx.currency ==ₜ codes "CAD" || not (any is_linked l)) currency_not_verified
        _ h in
    let (after, e_after, h) = bind-inversion (link_rows q.receipt_service before l) _ h in
    subst (IsPlanFor q db) (cc) (record {
      tx = tx;
      normalized = l;
      transaction = et;
      expected = ev ∙ ap some (sym ((==_iff version v).0 same_version));
      current = refl;
      previous = refl;
      accepted = e_l;
      linked = e_after;
      expense = ground arith;
    })

given_version-eq : (o : Option ℕ) (v : ℕ) → given_version o ≡ returns v → o ≡ some v
unfolding given_version
given_version-eq none v h = cc
given_version-eq (some w) v h = cc

found-eq : (o : Option BankTransaction) (tx : BankTransaction) → found o ≡ returns tx → o ≡ some tx
unfolding found
found-eq none tx h = cc
found-eq (some t) tx h = cc

-- A plan is settled only for a known expense transaction, at the version that the request expects,
-- from balanced rows.
pub plan_save-IsPlanFor :
    (q : SaveRequest) (db : Db) (p : SavePlan) → plan_save q db ≡ returns p → IsPlanFor q db p
unfolding plan_save
plan_save-IsPlanFor q db p h =
    let (v, e_v, h) = bind-inversion (given_version q.expected_version) _ h in
    let (given, h) =
      require-inversion
        (truthy (strip q.actor) && truthy (strip q.reason) && leb (length q.reason) 2000)
        actor_and_reason_required _ h in
    let (tx, e_tx, h) = bind-inversion (found (lookup q.transaction_id db.transactions)) _ h in
    plan_for-IsPlanFor q v tx db p (found-eq _ tx e_tx) (given_version-eq q.expected_version v e_v)
      h
