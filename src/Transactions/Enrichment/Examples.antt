-- ===== src/Transactions/Enrichment/Examples.antt =====
-- Runs of the enrichment, and instances of its theorems.

use home_budget_pipeline.Prelude.{ℕ, ◌≡◌, refl, ◌≢◌, ◌↔◌, true, false, Option, none, some, [], ◌∷◌}
use home_budget_pipeline.Prelude.Text.{Text, codes}
use home_budget_pipeline.Transactions.Matching.{matched, MatchDecision}
use home_budget_pipeline.Prelude.Table.{lookup, update}
use home_budget_pipeline.Transactions.Enrichment
use home_budget_pipeline.Transactions.Enrichment.{
  ExpenseRow, EnrichmentResult, enriched, enrich_matched_expense, midnight,
}
use home_budget_pipeline.Transactions.Enrichment.Laws.{
  Enriches, row_after, enrich_fills_only_missing,
}
use home_budget_pipeline.Transactions.Enrichment.Flags.{
  result, flags_tell_changes, empty_payer_unreported, enrich_again,
}
use home_budget_pipeline.Transactions.Matching.Examples.{grocer}

abbrev link : MatchDecision
link = record {
  outcome = matched;
  transaction_id = 7;
  matched_expense_pk = some 11;
  score = some 85;
  candidates = [];
}

abbrev bare : ExpenseRow
bare = record { transaction_datetime = none; payer = none }

abbrev expenses_db : Enrichment.Db
expenses_db = record {
  reconciliations = [];
  expenses = (10, bare) ∷ (11, bare) ∷ [];
  provenance = [];
}

link-Enriches : (payer : Option Text) → Enriches link grocer payer expenses_db 11 bare
unfolding enrich_matched_expense lookup
link-Enriches payer = (refl, refl, refl, refl)

enrich_fills_only_missing_example :
    (row_after link grocer (some (codes "Rox")) expenses_db 11
      ≡ some (record { transaction_datetime = some (midnight 739000); payer = some (codes "Rox") }))
    × ((k : ℕ)
        → k ≢ 11
        → row_after link grocer (some (codes "Rox")) expenses_db k ≡ lookup k expenses_db.expenses)
enrich_fills_only_missing_example =
    enrich_fills_only_missing link grocer (some (codes "Rox")) expenses_db 11 bare
      (link-Enriches (some (codes "Rox")))

abbrev filled : ExpenseRow
filled = record { transaction_datetime = some (midnight 739000); payer = some (codes "Rox") }

flags_tell_changes_example :
    ((true ≡ true) ↔ (bare.transaction_datetime ≢ filled.transaction_datetime))
    × ((true ≡ true) ↔ (bare.payer ≢ filled.payer))
flags_tell_changes_example =
    flags_tell_changes link grocer (some (codes "Rox")) expenses_db 11 bare filled
      (result 11 bare grocer (some (codes "Rox"))) (λ e. cc) (link-Enriches (some (codes "Rox")))
      (unfold enrich_matched_expense lookup in refl)
      (unfold enrich_matched_expense lookup update in refl)

empty_payer_unreported_example :
    (after : ExpenseRow) × (r : EnrichmentResult) × ((enrich_matched_expense link grocer
        (some [])
        expenses_db).0
      ≡ enriched r)
    × (row_after link grocer (some []) expenses_db 11 ≡ some after)
    × (r.payer_applied ≡ false)
    × (after.payer ≡ some [])
empty_payer_unreported_example =
    empty_payer_unreported link grocer expenses_db 11 bare (link-Enriches (some [])) refl

enrich_again_example :
    ((enrich_matched_expense link grocer
        (some (codes "Paul"))
        (enrich_matched_expense link grocer (some (codes "Rox")) expenses_db).1).0
      ≡ enriched (record {
        expense_pk = 11;
        transaction_id = 7;
        transaction_datetime_applied = false;
        payer_applied = false;
      }))
    × ((k : ℕ)
        → row_after link grocer
            (some (codes "Paul"))
            (enrich_matched_expense link grocer (some (codes "Rox")) expenses_db).1
            k
          ≡ lookup k
              (enrich_matched_expense link grocer (some (codes "Rox")) expenses_db).1.expenses)
enrich_again_example =
    enrich_again link link grocer grocer (codes "Rox") (some (codes "Paul")) expenses_db 11 bare
      (link-Enriches (some (codes "Rox"))) refl refl
