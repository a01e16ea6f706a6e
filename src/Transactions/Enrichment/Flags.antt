-- ===== src/Transactions/Enrichment/Flags.antt =====
-- The provenance flags of an enrichment, and enriching an expense again.
use native.Mathlib.Decide.{ℕ_discrete}
use home_budget_pipeline.Prelude.{
  subst, ℕ, ◌≡◌, refl, sym, ◌∙◌, ap, ◌≢◌, ◌↔◌, true, false, ◌&&◌, Option, none, some, arith, [],
  is_none,
}
use home_budget_pipeline.Prelude.Text.{Text}
use home_budget_pipeline.Prelude.Table.{lookup}
use home_budget_pipeline.Transactions.Matching.{matched, MatchDecision, TransactionForMatching}
use home_budget_pipeline.Transactions.Enrichment.{
  ExpenseRow, Db, EnrichmentResult, Outcome, enriched, payer_given, midnight, fill,
  apply_enrichment, enrich_found, enrich_if_matched, enrich_matched_expense,
}
use home_budget_pipeline.Transactions.Enrichment.Laws.{
  Enriches, row_after, enrich_fills_only_missing,
}

-- The result that a successful call returns.
abbrev pub result : ℕ → ExpenseRow → TransactionForMatching → Option Text → EnrichmentResult
result pk row t payer = record {
  expense_pk = pk;
  transaction_id = t.transaction_id;
  transaction_datetime_applied = is_none row.transaction_datetime;
  payer_applied = is_none row.payer && payer_given payer;
}

Enriches-result :
    (d : MatchDecision) (t : TransactionForMatching) (payer : Option Text) (db : Db) (pk : ℕ)
    (row : ExpenseRow)
    → Enriches d t payer db pk row
    → (enrich_matched_expense d t payer db).0 ≡ enriched (result pk row t payer)
unfolding apply_enrichment
Enriches-result d t payer db pk row (m, p, l, e) = ap (λ (x : Outcome × Db). x.0) e

-- Where a payer is not the empty text, each flag of the result is true exactly when the call
-- changed that field of the expense.
pub flags_tell_changes :
    (d : MatchDecision) (t : TransactionForMatching) (payer : Option Text) (db : Db) (pk : ℕ)
    (row after : ExpenseRow) (r : EnrichmentResult)
    → payer ≢ some []
    → Enriches d t payer db pk row
    → (enrich_matched_expense d t payer db).0 ≡ enriched r
    → row_after d t payer db pk ≡ some after
    → ((r.transaction_datetime_applied ≡ true)
        ↔ (row.transaction_datetime ≢ after.transaction_datetime))
      × ((r.payer_applied ≡ true) ↔ (row.payer ≢ after.payer))
flags_tell_changes d t payer db pk row after r given en er ea = ground (
  arith,
  Enriches-result d t payer db pk row en,
  (enrich_fills_only_missing d t payer db pk row en).0,
)

-- An empty payer text is stored in an expense without a payer, and the flag says that no payer was
-- applied.
pub empty_payer_unreported :
    (d : MatchDecision) (t : TransactionForMatching) (db : Db) (pk : ℕ) (row : ExpenseRow)
    → Enriches d t (some []) db pk row
    → row.payer ≡ none
    → (after : ExpenseRow) × (r : EnrichmentResult) × ((enrich_matched_expense d t (some []) db).0
        ≡ enriched r)
      × (row_after d t (some []) db pk ≡ some after)
      × (r.payer_applied ≡ false)
      × (after.payer ≡ some [])
empty_payer_unreported d t db pk row en missing = (
  fill (midnight t.transaction_date) (some []) row,
  result pk row t (some []),
  Enriches-result d t (some []) db pk row en,
  (enrich_fills_only_missing d t (some []) db pk row en).0,
  rw missing,
  rw missing,
)

Enriches-intro :
    (d : MatchDecision) (t : TransactionForMatching) (payer : Option Text) (db : Db) (pk : ℕ)
    (row : ExpenseRow)
    → d.outcome ≡ matched
    → d.matched_expense_pk ≡ some pk
    → lookup pk db.expenses ≡ some row
    → Enriches d t payer db pk row
unfolding enrich_matched_expense enrich_if_matched enrich_found
Enriches-intro d t payer db pk row m q l = (m, q, l, rw (m, q) (rw l refl))

-- A filled row has nothing left to fill.
fill_again :
    (t u : TransactionForMatching) (p : Text) (payer : Option Text) (row : ExpenseRow)
    → let filled = fill (midnight t.transaction_date) (some p) row in
      fill (midnight u.transaction_date) payer filled ≡ filled
fill_again t u p payer row = ground arith

result_again :
    (t u : TransactionForMatching) (p : Text) (payer : Option Text) (pk : ℕ) (row : ExpenseRow)
    → result pk (fill (midnight t.transaction_date) (some p) row) u payer ≡ record {
      expense_pk = pk;
      transaction_id = u.transaction_id;
      transaction_datetime_applied = false;
      payer_applied = false;
    }
result_again t u p payer pk row = ground arith

-- Enriching an expense a second time, from any transaction, changes no expense and reports that
-- nothing was applied, where the first call was given a payer.
pub enrich_again :
    (d e : MatchDecision) (t u : TransactionForMatching) (p : Text) (payer : Option Text) (db : Db)
    (pk : ℕ) (row : ExpenseRow)
    → Enriches d t (some p) db pk row
    → e.outcome ≡ matched
    → e.matched_expense_pk ≡ some pk
    → let next = (enrich_matched_expense d t (some p) db).1 in
      ((enrich_matched_expense e u payer next).0
        ≡ enriched (record {
          expense_pk = pk;
          transaction_id = u.transaction_id;
          transaction_datetime_applied = false;
          payer_applied = false;
        }))
      × ((k : ℕ) → row_after e u payer next k ≡ lookup k next.expenses)
enrich_again d e t u p payer db pk row en m q =
    let next = (enrich_matched_expense d t (some p) db).1 in
    let filled : ExpenseRow = fill (midnight t.transaction_date) (some p) row in
    let read : lookup pk next.expenses ≡ some filled =
      (enrich_fills_only_missing d t (some p) db pk row en).0 in
    let again : Enriches e u payer next pk filled =
      Enriches-intro e u payer next pk filled m q read in
    let settled = fill_again t u p payer row in
    (
      Enriches-result e u payer next pk filled again
          ∙ ap enriched (result_again t u p payer pk row),
      λ k. elim (ℕ_discrete k pk) [
        | yes same ↦
            subst (λ j. row_after e u payer next j ≡ lookup j next.expenses) (sym same)
              ((enrich_fills_only_missing e u payer next pk filled again).0
                ∙ ap some settled
                ∙ sym read)
        | no other ↦ (enrich_fills_only_missing e u payer next pk filled again).1 k other
      ],
    )
