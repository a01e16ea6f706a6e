-- ===== src/Categorization/Pipeline/Examples.antt =====
-- Runs of the categorization, and instances of its theorems.
use home_budget_pipeline.Prelude.{
  ◌≡◌, refl, ◌≢◌, true, none, some, List, [], ◌∷◌, any, subst, ap, sym, ◌∙◌, arith, Bool-cases, inl,
  inr,
}
use home_budget_pipeline.Prelude.Int.{pos}
use home_budget_pipeline.Prelude.Text.{
  Text, codes, ◌==ₜ◌, text_eq, lower, strip, drop_spaces, drop_trailing, is_space, contains,
  starts_with,
}
use home_budget_pipeline.Prelude.Words.{normalize_for_match, spaced, spaced_from}
use home_budget_pipeline.Prelude.Result.{returns}
use home_budget_pipeline.Categorization.Tables.{category_order, verified_category_overrides}
use home_budget_pipeline.Categorization.Logic.{
  CategoryRule, RuleInput, missing, number, get, listed, text_pairs, is_valid,
  canonicalize_category, canonicalize_cleaned, find_normalized, match_type_of, normalize_rule,
  normalize_rules,
}
use home_budget_pipeline.Categorization.Logic.Rules.{
  insert_rule, sort_rules, set_runtime_category_rules, scope_fits, text_fits, rule_fits, first_fit,
  scope_of, match_runtime_category_rule,
}
use home_budget_pipeline.Categorization.Logic.Rules.Order.{IsFirst, match_takes_lowest_priority}
use home_budget_pipeline.Categorization.Logic.Keywords.{deterministic_category}
use home_budget_pipeline.Categorization.Logic.Keywords.Valid.{deterministic_category_valid}
use home_budget_pipeline.Categorization.Pipeline.{
  learned_mapping, manual, CategoryDecision, CatalogEntry, names, canonicalize, if_valid,
  resolved_category, entry_aliases, aliases_from, CategoryMappingPipeline, decision, categorize,
  approve_mapping,
}
use home_budget_pipeline.Categorization.Pipeline.Decide.{IsSound, Finds, categorize-IsSound}
use home_budget_pipeline.Categorization.Pipeline.Gaps.{without_ai, ai_only_fills_gaps}
use home_budget_pipeline.Categorization.Pipeline.Learned.{
  IsConsistent, approval_is_learned, approval_leaves_others,
}

abbrev groceries : Text
groceries = codes "Groceries"

abbrev catalog : List CatalogEntry
catalog = record { name = groceries; aliases = codes "food" ∷ [] } ∷ []

abbrev kale : Text
kale = codes "ZZ Kale"

abbrev guess : CategoryDecision
guess = decision (codes "food") manual 50 "guess"

abbrev pipeline : CategoryMappingPipeline
pipeline = record { learned_mappings = []; ai_fallback = some (λ d s m. guess) }

abbrev learned_pipeline : CategoryMappingPipeline
learned_pipeline = record pipeline { learned_mappings = (codes "zz kale", groceries) ∷ [] }

abbrev rule_input : RuleInput
rule_input = record {
  category_name = groceries;
  match_type = codes "contains";
  match_text = codes "kale";
  source = [];
  merchant = [];
  priority = missing;
}

abbrev low_rule : RuleInput
low_rule = record rule_input { category_name = codes "Dining"; priority = number (pos 5) }

first_rule :
    match_runtime_category_rule
      (set_runtime_category_rules (rule_input ∷ low_rule ∷ []))
      kale
      none
      none
    ≡ some (codes "Dining")
unfolding match_runtime_category_rule set_runtime_category_rules sort_rules insert_rule
    normalize_rules normalize_rule canonicalize_category canonicalize_cleaned find_normalized
    match_type_of is_valid listed any first_fit rule_fits scope_fits text_fits scope_of contains
    starts_with normalize_for_match spaced spaced_from lower strip drop_spaces drop_trailing
    is_space category_order
first_rule = refl

match_takes_lowest_priority_example :
    (r : CategoryRule) × (r.category_name ≡ codes "Dining")
    × IsFirst
        (rule_fits (normalize_for_match kale) (scope_of none) (scope_of none))
        (normalize_rules (rule_input ∷ low_rule ∷ []))
        r
match_takes_lowest_priority_example =
    match_takes_lowest_priority (rule_input ∷ low_rule ∷ []) kale none none (codes "Dining")
      first_rule

deterministic_category_valid_example : is_valid (deterministic_category [] kale none none).0 ≡ true
deterministic_category_valid_example = deterministic_category_valid [] kale none none

categorize-IsSound_example :
    IsSound
      (Finds catalog [] pipeline kale none none)
      catalog
      (categorize catalog [] pipeline kale none none)
categorize-IsSound_example = categorize-IsSound catalog [] pipeline kale none none

groceries_resolved : resolved_category catalog (some groceries) ≡ some groceries
unfolding resolved_category if_valid canonicalize entry_aliases aliases_from get listed any
    normalize_for_match spaced spaced_from lower strip drop_spaces drop_trailing is_space
groceries_resolved = refl

only_groceries : (n : Text) → listed n (names catalog) ≡ true → (groceries ==ₜ n) ≡ true
unfolding listed any
only_groceries n h = elim (Bool-cases (groceries ==ₜ n)) [ inl e ↦ e | inr e ↦ ground arith ]

catalog-IsConsistent : IsConsistent catalog
catalog-IsConsistent name h =
    subst (λ n. resolved_category catalog (some n) ≡ some n)
      (text_eq groceries name (only_groceries name h)) groceries_resolved

approved :
    approve_mapping catalog pipeline kale groceries
    ≡ returns (decision groceries manual 100 "human-approved category mapping", learned_pipeline)
unfolding approve_mapping resolved_category if_valid canonicalize entry_aliases aliases_from get
    listed any normalize_for_match spaced spaced_from lower strip drop_spaces drop_trailing is_space
approved = refl

abbrev zz_kale : Text
zz_kale = codes "zz-kale"

same_form : normalize_for_match zz_kale ≡ normalize_for_match kale
unfolding normalize_for_match spaced spaced_from lower strip drop_spaces drop_trailing is_space
same_form = refl

no_override :
    resolved_category catalog
      (get (normalize_for_match zz_kale) (text_pairs verified_category_overrides))
    ≡ none
unfolding resolved_category if_valid canonicalize get normalize_for_match spaced spaced_from lower
    strip drop_spaces drop_trailing is_space verified_category_overrides
no_override = refl

no_rule : resolved_category catalog (match_runtime_category_rule [] zz_kale none none) ≡ none
unfolding resolved_category if_valid canonicalize match_runtime_category_rule first_fit
    normalize_for_match spaced spaced_from lower strip drop_spaces drop_trailing is_space
no_rule = refl

approval_is_learned_example :
    (name : Text) × (resolved_category catalog (some groceries) ≡ some name)
    × (some groceries ≡ some name)
    × (categorize catalog [] learned_pipeline zz_kale none none
        ≡ decision name learned_mapping 100 "previously approved product mapping")
approval_is_learned_example =
    approval_is_learned catalog [] pipeline learned_pipeline kale groceries zz_kale none none
      (decision groceries manual 100 "human-approved category mapping") catalog-IsConsistent
      approved same_form no_override no_rule

other_form : normalize_for_match (codes "bread") ≢ normalize_for_match kale
unfolding normalize_for_match spaced spaced_from lower strip drop_spaces drop_trailing is_space
other_form e = cc

approval_leaves_others_example :
    categorize catalog [] learned_pipeline (codes "bread") none none
    ≡ categorize catalog [] pipeline (codes "bread") none none
approval_leaves_others_example =
    approval_leaves_others catalog [] pipeline learned_pipeline kale groceries (codes "bread") none
      none (decision groceries manual 100 "human-approved category mapping") approved other_form

approved_without_ai :
    approve_mapping catalog (without_ai pipeline) kale groceries
    ≡ returns (
      decision groceries manual 100 "human-approved category mapping",
      without_ai learned_pipeline,
    )
unfolding approve_mapping resolved_category if_valid canonicalize entry_aliases aliases_from get
    listed any normalize_for_match spaced spaced_from lower strip drop_spaces drop_trailing is_space
approved_without_ai = refl

some≢none_category : (name : Text) → some name ≢ none
some≢none_category name e = cc

learned_found :
    (categorize catalog [] (without_ai learned_pipeline) zz_kale none none).category ≢ none
learned_found =
    let (name, _, _, e) =
      approval_is_learned catalog [] (without_ai pipeline) (without_ai learned_pipeline) kale
        groceries zz_kale none none
        (decision groceries manual 100 "human-approved category mapping") catalog-IsConsistent
        approved_without_ai same_form no_override no_rule in
    λ k. some≢none_category name (ap (λ (d : CategoryDecision). d.category) (sym e) ∙ k)

ai_only_fills_gaps_example :
    categorize catalog [] learned_pipeline zz_kale none none
    ≡ categorize catalog [] (without_ai learned_pipeline) zz_kale none none
ai_only_fills_gaps_example =
    ai_only_fills_gaps catalog [] learned_pipeline zz_kale none none learned_found
