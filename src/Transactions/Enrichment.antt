-- ===== src/Transactions/Enrichment.antt =====
-- transactions/integration.py: storing match decisions, and filling an expense's missing payment
-- fields from a matched bank transaction. A datetime is a number of microseconds.
pub mod Laws
pub mod Flags
mod Examples
use home_budget_pipeline.Prelude.{
  ℕ, ◌*◌, Bool, false, ◌&&◌, Option, none, some, List, map, length, is_none,
}
use home_budget_pipeline.Prelude.Text.{Text, truthy}
use home_budget_pipeline.Prelude.Difflib.{Ratio}
use home_budget_pipeline.Prelude.Table.{Table, lookup, upsert, update}
use home_budget_pipeline.Transactions.Matching.{
  MatchOutcome, matched, CandidateScore, MatchDecision, TransactionForMatching,
}

-- One entry of `candidate_details`.
pub record CandidateDetail : Type 0 where
  pub expense_pk : ℕ
  pub score : ℕ
  pub amount_match : Bool
  pub date_distance_days : Option ℕ
  pub merchant_similarity : Ratio
  pub card_match : Bool
  pub account_match : Bool
  pub identifier_match : Bool

-- budget.transaction_expense_reconciliation, keyed by the transaction.
pub record ReconciliationRow : Type 0 where
  pub expense_pk : Option ℕ
  pub outcome : MatchOutcome
  pub score : Option ℕ
  pub candidate_count : ℕ
  pub candidate_details : List CandidateDetail

-- The two columns of budget.expenses that are enriched.
pub record ExpenseRow : Type 0 where
  pub transaction_datetime : Option ℕ
  pub payer : Option Text

-- budget.expense_transaction_enrichment, keyed by the expense.
pub record ProvenanceRow : Type 0 where
  pub transaction_id : ℕ
  pub transaction_datetime_applied : Bool
  pub payer_applied : Bool

pub record Db : Type 0 where
  pub reconciliations : Table ReconciliationRow
  pub expenses : Table ExpenseRow
  pub provenance : Table ProvenanceRow

pub record EnrichmentResult : Type 0 where
  pub expense_pk : ℕ
  pub transaction_id : ℕ
  pub transaction_datetime_applied : Bool
  pub payer_applied : Bool

-- `ValueError` and `LookupError`.
pub data EnrichmentError : Type 0 where
  not_matched expense_not_found : EnrichmentError

pub data Outcome : Type 0 where
  enriched : EnrichmentResult → Outcome
  raised : EnrichmentError → Outcome

unfoldable pub detail : CandidateScore → CandidateDetail
detail c = record {
  expense_pk = c.candidate.expense_pk;
  score = c.score;
  amount_match = c.amount_match;
  date_distance_days = c.date_distance_days;
  merchant_similarity = c.merchant_similarity;
  card_match = c.card_match;
  account_match = c.account_match;
  identifier_match = c.identifier_match;
}

-- The values that `save_decision` binds to its statement.
unfoldable pub reconciliation_row : MatchDecision → ReconciliationRow
unfolding detail
reconciliation_row d = record {
  expense_pk = d.matched_expense_pk;
  outcome = d.outcome;
  score = d.score;
  candidate_count = length d.candidates;
  candidate_details = map detail d.candidates;
}

-- `save_decision`
unfoldable pub save_decision : MatchDecision → Db → Db
unfolding reconciliation_row
save_decision d db = record db {
  reconciliations = upsert d.transaction_id (reconciliation_row d) db.reconciliations;
}

-- `COALESCE(a, b)`
abbrev pub coalesce {ℓ} : {A : Type ℓ} → Option A → Option A → Option A
coalesce (some a) b = some a
coalesce none b = b

-- `bool(payer)`
abbrev pub payer_given : Option Text → Bool
payer_given none = false
payer_given (some p) = truthy p

-- `datetime.combine(day, time.min)`
abbrev pub midnight : ℕ → ℕ
midnight day = day * 86400000000

abbrev pub fill : ℕ → Option Text → ExpenseRow → ExpenseRow
fill derived payer row = record {
  transaction_datetime = coalesce row.transaction_datetime (some derived);
  payer = coalesce row.payer payer;
}

-- The writes for an expense that was found, and the result that is returned.
unfoldable pub apply_enrichment :
    ℕ → ExpenseRow → TransactionForMatching → Option Text → Db → Outcome × Db
apply_enrichment expense_pk row transaction payer db =
    let applied_datetime = is_none row.transaction_datetime in
    let applied_payer = is_none row.payer && payer_given payer in
    (
      enriched (record {
        expense_pk = expense_pk;
        transaction_id = transaction.transaction_id;
        transaction_datetime_applied = applied_datetime;
        payer_applied = applied_payer;
      }),
      record db {
        expenses =
            update expense_pk (fill (midnight transaction.transaction_date) payer) db.expenses;
        provenance =
            upsert expense_pk
              (record {
                transaction_id = transaction.transaction_id;
                transaction_datetime_applied = applied_datetime;
                payer_applied = applied_payer;
              })
              db.provenance;
      },
    )

unfoldable pub enrich_found :
    ℕ → Option ExpenseRow → TransactionForMatching → Option Text → Db → Outcome × Db
unfolding apply_enrichment
enrich_found expense_pk none transaction payer db = (raised expense_not_found, db)
enrich_found expense_pk (some row) transaction payer db =
    apply_enrichment expense_pk row transaction payer db

unfoldable pub enrich_if_matched :
    MatchOutcome → Option ℕ → TransactionForMatching → Option Text → Db → Outcome × Db
unfolding enrich_found
enrich_if_matched matched (some expense_pk) transaction payer db =
    enrich_found expense_pk (lookup expense_pk db.expenses) transaction payer db
enrich_if_matched _ _ transaction payer db = (raised not_matched, db)

-- `enrich_matched_expense`: nothing is written before the errors, and one commit ends the writes.
unfoldable pub enrich_matched_expense :
    MatchDecision → TransactionForMatching → Option Text → Db → Outcome × Db
unfolding enrich_if_matched
enrich_matched_expense decision transaction payer db =
    enrich_if_matched decision.outcome decision.matched_expense_pk transaction payer db
