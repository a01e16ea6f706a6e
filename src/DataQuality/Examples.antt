-- ===== src/DataQuality/Examples.antt =====
-- Runs of the validator, and instances of its theorem.
use home_budget_pipeline.Prelude.{◌≡◌, refl, ◌↔◌, none, some, [], ◌∷◌, any}
use home_budget_pipeline.Prelude.Int.{pos}
use home_budget_pipeline.Prelude.Decimal.{finite}
use home_budget_pipeline.Prelude.Text.{codes, strip, drop_spaces, drop_trailing, is_space}
use home_budget_pipeline.Prelude.Result.{returns}
use home_budget_pipeline.DataQuality.{
  pass, fail, not_applicable, CanonicalExpense, CanonicalExpenseItem, has_text, require_text,
  expense_violations, item_violations, items_violations, validate, requires_review,
  source_rule_status, supported_sources,
}
use home_budget_pipeline.DataQuality.Laws.{IsComplete, result_of, validate-passes_iff}

abbrev order : CanonicalExpense
order = record {
  expense_pk = pos 3;
  source = some (codes "costco");
  order_id = some (codes "A-17");
  order_date = some 739000;
  transaction_datetime = none;
  store_name = some (codes "Costco");
  expense_total = some (finite (pos 1999) 2);
}

abbrev milk : CanonicalExpenseItem
milk = record {
  id = pos 1;
  expense_pk = pos 3;
  item_name = some (codes "Milk");
  line_total = some (finite (pos 1999) 2);
}

abbrev blank : CanonicalExpenseItem
blank = record { id = pos 2; expense_pk = pos 3; item_name = some (codes "  "); line_total = none }

order_result : validate order (milk ∷ []) ≡ returns (result_of order (milk ∷ []))
unfolding validate any
order_result = refl

blank_fails : (result_of order (blank ∷ [])).status ≡ fail
unfolding expense_violations require_text has_text item_violations items_violations strip
    drop_spaces drop_trailing is_space
blank_fails = refl

blank_review :
    requires_review (result_of order (blank ∷ [])) ≡ (requires_review (result_of order []))
unfolding requires_review expense_violations require_text has_text item_violations items_violations
    strip drop_spaces drop_trailing is_space
blank_review = refl

other_rule : source_rule_status (codes "costco") (codes "sobeys") ≡ not_applicable
unfolding source_rule_status supported_sources any
other_rule = refl

validate-passes_iff_example :
    (((result_of order (milk ∷ [])).status ≡ pass) ↔ IsComplete order (milk ∷ []))
    × (((result_of order (milk ∷ [])).violations ≡ []) ↔ IsComplete order (milk ∷ []))
validate-passes_iff_example =
    validate-passes_iff order (milk ∷ []) (result_of order (milk ∷ [])) order_result
