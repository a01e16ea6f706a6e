-- ===== src/Categorization/Logic/Rules.antt =====
-- categorization/logic.py: the order of the runtime rules, and the rule that a description matches.
pub mod Order
use home_budget_pipeline.Prelude.{
  Bool, true, false, ◌&&◌, Option, none, some, List, [], ◌∷◌, if◌then◌else◌,
}
use home_budget_pipeline.Prelude.Int.{ltb_ℤ}
use home_budget_pipeline.Prelude.Text.{Text, ◌==ₜ◌, truthy, contains}
use home_budget_pipeline.Prelude.Words.{normalize_for_match}
use home_budget_pipeline.Categorization.Logic.{
  RuleInput, MatchType, exact, contains_text, CategoryRule, some_text, normalize_rules,
}

-- The order by `(priority, _idx)`: an earlier rule stays before a later one of the same priority.
unfoldable pub insert_rule : CategoryRule → List CategoryRule → List CategoryRule
insert_rule r [] = r ∷ []
insert_rule r (s ∷ rest) =
    if ltb_ℤ s.priority r.priority then s ∷ insert_rule r rest else r ∷ s ∷ rest

unfoldable pub sort_rules : List CategoryRule → List CategoryRule
unfolding insert_rule
sort_rules [] = []
sort_rules (r ∷ rest) = insert_rule r (sort_rules rest)

-- `set_runtime_category_rules`: the new rules.
unfoldable pub set_runtime_category_rules : List RuleInput → List CategoryRule
unfolding sort_rules normalize_rules
set_runtime_category_rules rules = sort_rules (normalize_rules rules)

-- A rule without a scope fits all.
unfoldable pub scope_fits : Option Text → Option Text → Bool
scope_fits none given = true
scope_fits (some scope) none = false
scope_fits (some scope) (some given) = scope ==ₜ given

unfoldable pub text_fits : MatchType → Text → Text → Bool
unfolding contains
text_fits exact rule_text desc = desc ==ₜ rule_text
text_fits contains_text rule_text desc = contains rule_text desc

unfoldable pub rule_fits : Text → Option Text → Option Text → CategoryRule → Bool
unfolding scope_fits text_fits
rule_fits desc source merchant r =
    scope_fits r.source_norm source
    && scope_fits r.merchant_norm merchant
    && text_fits r.match_type r.match_text_norm desc

unfoldable pub first_fit : (CategoryRule → Bool) → List CategoryRule → Option CategoryRule
first_fit fits [] = none
first_fit fits (r ∷ rest) = if fits r then some r else first_fit fits rest

abbrev pub category_of : Option CategoryRule → Option Text
category_of none = none
category_of (some r) = some r.category_name

-- `normalize_for_match(value or '') or None`
unfoldable pub scope_of : Option Text → Option Text
unfolding normalize_for_match
scope_of none = none
scope_of (some value) = some_text (normalize_for_match value)

-- `match_runtime_category_rule`
unfoldable pub match_runtime_category_rule :
    List CategoryRule → Text → Option Text → Option Text → Option Text
unfolding first_fit rule_fits scope_of normalize_for_match
match_runtime_category_rule rules desc source merchant =
    let norm = normalize_for_match desc in
    if truthy norm
    then category_of (first_fit (rule_fits norm (scope_of source) (scope_of merchant)) rules)
    else none
