-- ===== src/Transactions/Enrichment/Laws.antt =====
-- Enrichment never overwrites what an expense already has, and its flags tell what it filled.
use home_budget_pipeline.Prelude.{ℕ, ◌≡◌, refl, ap, ◌≢◌, Option, none, some, arith, ==_refl}
use home_budget_pipeline.Prelude.Text.{Text}
use home_budget_pipeline.Prelude.Table.{lookup, lookup-update}
use home_budget_pipeline.Transactions.Matching.{
  MatchOutcome, matched, ambiguous, unmatched, MatchDecision, TransactionForMatching,
}
use home_budget_pipeline.Transactions.Enrichment.{
  ExpenseRow, Db, EnrichmentResult, EnrichmentError, not_matched, expense_not_found, Outcome,
  enriched, raised, coalesce, midnight, fill, apply_enrichment, enrich_found, enrich_if_matched,
  enrich_matched_expense,
}

-- The expense, and its row before the call, that a successful call is about.
abbrev pub Enriches :
    MatchDecision → TransactionForMatching → Option Text → Db → ℕ → ExpenseRow → Type 0
Enriches d t payer db pk row =
    (d.outcome ≡ matched)
    × (d.matched_expense_pk ≡ some pk)
    × (lookup pk db.expenses ≡ some row)
    × (enrich_matched_expense d t payer db ≡ apply_enrichment pk row t payer db)

-- What a call does is settled by the outcome, the linked key and the row that is read.
data Course (t : TransactionForMatching) (payer : Option Text) (db : Db)
    : MatchOutcome → Option ℕ → Type 0 where
  refused :
      {o : MatchOutcome} {p : Option ℕ}
      → enrich_if_matched o p t payer db ≡ (raised not_matched, db)
      → Course t payer db o p
  missing :
      (pk : ℕ)
      → lookup pk db.expenses ≡ none
      → enrich_if_matched matched (some pk) t payer db ≡ (raised expense_not_found, db)
      → Course t payer db matched (some pk)
  written :
      (pk : ℕ) (row : ExpenseRow)
      → lookup pk db.expenses ≡ some row
      → enrich_if_matched matched (some pk) t payer db ≡ apply_enrichment pk row t payer db
      → Course t payer db matched (some pk)

Course-of_row :
    (t : TransactionForMatching) (payer : Option Text) (db : Db) (pk : ℕ) (o : Option ExpenseRow)
    → lookup pk db.expenses ≡ o
    → Course t payer db matched (some pk)
unfolding enrich_if_matched enrich_found
Course-of_row t payer db pk none e = missing pk e (rw e)
Course-of_row t payer db pk (some row) e = written pk row e (rw e)

course :
    (t : TransactionForMatching) (payer : Option Text) (db : Db) (o : MatchOutcome) (p : Option ℕ)
    → Course t payer db o p
unfolding enrich_if_matched
course t payer db matched (some pk) = Course-of_row t payer db pk (lookup pk db.expenses) refl
course t payer db matched none = refused refl
course t payer db ambiguous p = refused refl
course t payer db unmatched p = refused refl

Enriches-of_Course :
    {t : TransactionForMatching} {payer : Option Text} {db : Db} {o : MatchOutcome} {p : Option ℕ}
    (d : MatchDecision) (r : EnrichmentResult)
    → Course t payer db o p
    → d.outcome ≡ o
    → d.matched_expense_pk ≡ p
    → (enrich_if_matched o p t payer db).0 ≡ enriched r
    → (pk : ℕ) × (row : ExpenseRow) × Enriches d t payer db pk row
unfolding enrich_matched_expense
Enriches-of_Course d r (refused e) eo ep h = cc (ap (λ (x : Outcome × Db). x.0) e)
Enriches-of_Course d r (missing pk l e) eo ep h = cc (ap (λ (x : Outcome × Db). x.0) e)
Enriches-of_Course d r (written pk row l e) eo ep h = (pk, row, (eo, ep, l, rw (eo, ep) e))

pub enriched_inversion :
    (d : MatchDecision) (t : TransactionForMatching) (payer : Option Text) (db : Db)
    (r : EnrichmentResult)
    → (enrich_matched_expense d t payer db).0 ≡ enriched r
    → (pk : ℕ) × (row : ExpenseRow) × Enriches d t payer db pk row
enriched_inversion d t payer db r h =
    Enriches-of_Course d r (course t payer db d.outcome d.matched_expense_pk) refl refl
      (unfold enrich_matched_expense in h)

-- A call that raises changes nothing.
raised_of_Course :
    {t : TransactionForMatching} {payer : Option Text} {db : Db} {o : MatchOutcome} {p : Option ℕ}
    (e : EnrichmentError)
    → Course t payer db o p
    → (enrich_if_matched o p t payer db).0 ≡ raised e
    → (enrich_if_matched o p t payer db).1 ≡ db
raised_of_Course e (refused q) h = ap (λ (x : Outcome × Db). x.1) q
raised_of_Course e (missing pk l q) h = ap (λ (x : Outcome × Db). x.1) q
raised_of_Course {t} {payer} {db} e (written pk row l q) h =
    unfold apply_enrichment in cc (ap (λ (x : Outcome × Db). x.0) q)

-- A call that raises leaves the database as it was.
raised_changes_nothing :
    (d : MatchDecision) (t : TransactionForMatching) (payer : Option Text) (db : Db)
    (e : EnrichmentError)
    → (enrich_matched_expense d t payer db).0 ≡ raised e
    → (enrich_matched_expense d t payer db).1 ≡ db
unfolding enrich_matched_expense
raised_changes_nothing d t payer db e h =
    raised_of_Course e (course t payer db d.outcome d.matched_expense_pk) h

abbrev pub row_after :
    MatchDecision → TransactionForMatching → Option Text → Db → ℕ → Option ExpenseRow
row_after d t payer db k = lookup k (enrich_matched_expense d t payer db).1.expenses

-- A successful call fills the missing fields of the linked expense, keeps the fields that it had,
-- and leaves every other expense as it was.
pub enrich_fills_only_missing :
    (d : MatchDecision) (t : TransactionForMatching) (payer : Option Text) (db : Db) (pk : ℕ)
    (row : ExpenseRow)
    → Enriches d t payer db pk row
    → (row_after d t payer db pk
        ≡ some (record {
          transaction_datetime =
              coalesce row.transaction_datetime (some (midnight t.transaction_date));
          payer = coalesce row.payer payer;
        }))
      × ((k : ℕ) → k ≢ pk → row_after d t payer db k ≡ lookup k db.expenses)
enrich_fills_only_missing d t payer db pk row (m, p, l, e) = rw e (
    unfold apply_enrichment in
    (
      rw (
        lookup-update pk pk (fill (midnight t.transaction_date) payer) db.expenses,
        ==_refl pk,
        l,
      ),
      λ k ne.
          rw (lookup-update pk k (fill (midnight t.transaction_date) payer) db.expenses)
            (ground arith),
    ))
