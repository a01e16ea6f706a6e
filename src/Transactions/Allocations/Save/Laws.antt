-- ===== src/Transactions/Allocations/Save/Laws.antt =====
-- What saving does to the stored allocations, their version and their audit.
use home_budget_pipeline.Prelude.{
  ℕ, ◌+◌, ◌≡◌, refl, sym, ap, subst, ◌∙◌, ◌≢◌, ◌⊎◌, Bool, true, false, some, arith, List, ==_refl,
}
use home_budget_pipeline.Prelude.Int.{sum}
use home_budget_pipeline.Prelude.Table.{lookup, lookup-upsert}
use home_budget_pipeline.Prelude.Result.{returns, raises}
use home_budget_pipeline.Transactions.Allocations.{Allocation, AllocationError, Checked, amounts}
use home_budget_pipeline.Transactions.Allocations.Normalize.{normalize_allocations-balanced}
use home_budget_pipeline.Transactions.Allocations.Save.{
  BankTransaction, Db, SaveRequest, SavePlan, SaveResult, rows_or_empty, latest_version, plan_save,
  write_plan, commit_plan, save_allocations,
}
use home_budget_pipeline.Transactions.Allocations.Save.Plan.{
  IsPlanFor, plan_save-IsPlanFor, link_rows-amounts,
}

abbrev pub stored : Db → ℕ → List Allocation
stored db transaction_id = rows_or_empty (lookup transaction_id db.allocations)

abbrev pub version_of : Db → ℕ → ℕ
version_of db transaction_id = latest_version (rows_or_empty (lookup transaction_id db.audit))

-- A save that raises, and a preview, change nothing.
save_without_effect :
    (q : SaveRequest) (apply : Bool) (db : Db) (e : AllocationError)
    → ((save_allocations q apply db).0 ≡ raises e) ⊎ (apply ≡ false)
    → (save_allocations q apply db).1 ≡ db
unfolding save_allocations
save_without_effect q apply db e h = effect (plan_save q db) h
  where
    effect :
        (p : Checked SavePlan)
        → ((commit_plan q apply p db).0 ≡ raises e) ⊎ (apply ≡ false)
        → (commit_plan q apply p db).1 ≡ db
    effect (raises c) k = refl
    effect (returns p) k = ground arith

abbrev result_of : SaveRequest → SavePlan → SaveResult
result_of q p = record {
  transaction_id = q.transaction_id;
  version = p.version + 1;
  allocations = p.after;
  applied = true;
}

commit-inversion :
    (q : SaveRequest) (m : Checked SavePlan) (db : Db) (r : SaveResult)
    → (commit_plan q true m db).0 ≡ returns r
    → (p : SavePlan) × (m ≡ returns p)
      × (result_of q p ≡ r)
      × ((commit_plan q true m db).1 ≡ write_plan q p db)
unfolding commit_plan
commit-inversion q (raises e) db r h = cc
commit-inversion q (returns p) db r h = (p, refl, cc, refl)

module _ (q : SaveRequest) (p : SavePlan) (db : Db) where
  version_of-write_plan :
      version_of db q.transaction_id ≡ p.version
      → version_of (write_plan q p db) q.transaction_id ≡ p.version + 1
  unfolding write_plan
  version_of-write_plan h =
      rw (lookup-upsert q.transaction_id q.transaction_id, ==_refl q.transaction_id)
        (unfold latest_version in rw h (omega arith))

  stored-write_plan : stored (write_plan q p db) q.transaction_id ≡ p.after
  unfolding write_plan
  stored-write_plan =
      rw (lookup-upsert q.transaction_id q.transaction_id, ==_refl q.transaction_id) refl

  stored-write_plan_ne : (k : ℕ) → k ≢ q.transaction_id → stored (write_plan q p db) k ≡ stored db k
  unfolding write_plan
  stored-write_plan_ne k ne =
      rw (lookup-upsert q.transaction_id k p.after db.allocations) (ground arith)

-- An applied save stores the allocations that it returns; they sum to the bank amount; the version
-- rises by exactly one from the expected one; and no other transaction's allocations change.
pub save_applies :
    (q : SaveRequest) (db : Db) (r : SaveResult)
    → (save_allocations q true db).0 ≡ returns r
    → (tx : BankTransaction) × (v : ℕ) × (lookup q.transaction_id db.transactions ≡ some tx)
      × (q.expected_version ≡ some v)
      × (version_of db q.transaction_id ≡ v)
      × (r.version ≡ v + 1)
      × (version_of (save_allocations q true db).1 q.transaction_id ≡ v + 1)
      × (stored (save_allocations q true db).1 q.transaction_id ≡ r.allocations)
      × (sum (amounts r.allocations) ≡ tx.amount)
      × ((k : ℕ) → k ≢ q.transaction_id → stored (save_allocations q true db).1 k ≡ stored db k)
unfolding save_allocations
save_applies q db r h =
    let (p, settled, same, write) = commit-inversion q (plan_save q db) db r h in
    let f : IsPlanFor q db p = plan_save-IsPlanFor q db p settled in
    let balanced = normalize_allocations-balanced q.rows f.tx.amount f.normalized f.accepted in
    let linked = link_rows-amounts q.receipt_service p.before f.normalized p.after f.linked in
    rw (← same, write)
      (
        f.tx,
        p.version,
        f.transaction,
        f.expected,
        f.current,
        refl,
        version_of-write_plan q p db f.current,
        stored-write_plan q p db,
        ap sum linked ∙ balanced.0,
        stored-write_plan_ne q p db,
      )

settled-of_return :
    (q : SaveRequest) (apply : Bool) (m : Checked SavePlan) (db : Db) (r : SaveResult)
    → (commit_plan q apply m db).0 ≡ returns r
    → (p : SavePlan) × (m ≡ returns p)
unfolding commit_plan
settled-of_return q apply (raises e) db r h = cc
settled-of_return q apply (returns p) db r h = (p, refl)

-- Of two saves of one transaction that expect the same version, the second does not succeed once
-- the first has been applied, so that no update is lost.
pub save_detects_conflict :
    (q u : SaveRequest) (apply : Bool) (db : Db) (r s : SaveResult)
    → (save_allocations q true db).0 ≡ returns r
    → u.transaction_id ≡ q.transaction_id
    → u.expected_version ≡ q.expected_version
    → (save_allocations u apply (save_allocations q true db).1).0 ≢ returns s
unfolding save_allocations
save_detects_conflict q u apply db r s h same_id same_version k =
    let (tx, v, transaction, expected, before, result, after, rest, balance, frame) =
      save_applies q db r h in
    let next = (save_allocations q true db).1 in
    let (p, settled) = settled-of_return u apply (plan_save u next) next s k in
    let f : IsPlanFor u next p = plan_save-IsPlanFor u next p settled in
    let current : version_of next q.transaction_id ≡ p.version =
      subst (λ (i : ℕ). version_of next i ≡ p.version) same_id f.current in
    let agreed : some p.version ≡ some v = sym f.expected ∙ same_version ∙ expected in ground arith
