-- ===== src/Categorization/Processing/Examples.antt =====
-- A run of the categorization of an expense, and an instance of its theorem.
use home_budget_pipeline.Prelude.{ℕ, ◌≡◌, refl, false, none, some, Option, [], ◌∷◌, map, arith}
use home_budget_pipeline.Prelude.Int.{pos}
use home_budget_pipeline.Prelude.Text.{Text, codes}
use home_budget_pipeline.Prelude.Table.{Table, lookup, map_some}
use home_budget_pipeline.Prelude.Result.{raises, returns}
use home_budget_pipeline.Categorization.Pipeline.{CategoryDecision, rule, decision}
use home_budget_pipeline.Categorization.Processing.{
  ItemRow, CategorizedExpense, load_items, save_decision, decide_item, categorize_expense,
  expense_pk_not_positive, item_not_found,
}
use home_budget_pipeline.Categorization.Processing.Saved.{
  IsKeyed, decided_row, categorize_expense_saves,
}

-- Every item is a grocery.
abbrev grocery : Text → Option Text → Option Text → CategoryDecision
grocery name source merchant = decision (codes "Groceries") rule 95 "deterministic keyword rule"

abbrev milk : ItemRow
milk = record {
  expense_pk = 7;
  item_name = codes "Milk";
  line_total = some (pos 549);
  budget_category = none;
  category_source = none;
  category_confidence = none;
  category_rationale = none;
  category_requires_review = false;
}

abbrev items : Table ItemRow
items = (1, milk) ∷ (2, record milk { expense_pk = 8 }) ∷ []

no_expense :
    categorize_expense grocery (λ pk rows. []) 0 none none items ≡ raises expense_pk_not_positive
unfolding categorize_expense
no_expense = refl

no_item : save_decision 3 (grocery [] none none) items ≡ raises item_not_found
unfolding save_decision lookup
no_item = refl

items-IsKeyed : IsKeyed items
unfolding lookup
items-IsKeyed = (refl, (refl, tt))

categorize_expense_saves_example :
    (result : CategorizedExpense) × (saved : Table ItemRow) × (categorize_expense grocery
        (λ pk rows. [])
        7
        none
        none
        items
      ≡ returns (result, saved))
    × ((k : ℕ) → lookup k saved ≡ map_some (decided_row grocery none none 7) (lookup k items))
    × (result.decisions ≡ map (decide_item grocery none none) (load_items 7 items))
categorize_expense_saves_example =
    categorize_expense_saves grocery none none (λ pk rows. []) 7 items (omega arith) items-IsKeyed
