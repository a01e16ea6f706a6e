-- ===== src/Categorization/Logic/Keywords/Valid.antt =====
-- Every category that the deterministic logic answers is in the list.
use home_budget_pipeline.Prelude.{
  ◌≡◌, refl, inl, inr, Bool, true, false, ◌&&◌, ◌||◌, Option, none, some, List, [], ◌∷◌, any, arith,
  if◌then◌else◌, Bool-cases, subst, some-inj,
}
use home_budget_pipeline.Prelude.Text.{Text, codes, contains, truthy, lower}
use home_budget_pipeline.Prelude.Words.{normalize_for_match}
use home_budget_pipeline.Categorization.Tables.{
  category_order, category_keywords, default_category, verified_category_overrides,
}
use home_budget_pipeline.Categorization.Logic.{is_valid, listed, CategoryRule, get, text_pairs}
use home_budget_pipeline.Categorization.Logic.Rules.{match_runtime_category_rule}
use home_budget_pipeline.Categorization.Logic.Keywords.{
  Keywords, keyword_texts, exact_in, try_exact_keyword_category, Ranked, rank_categories, fuzzy_in,
  candidates_of, try_fuzzy_keyword_category, when_valid, when_found, Decided, DeterministicSource,
  product_rule, deterministic_category, verified_cache, exact, mapping_rule, fuzzy, default,
}

abbrev all_listed : Keywords → Bool
all_listed [] = true
all_listed ((name, _) ∷ rest) = (is_valid name && truthy name) && all_listed rest

keywords_listed : all_listed (keyword_texts category_keywords) ≡ true
unfolding category_keywords is_valid listed category_order any
keywords_listed = refl

default_valid : is_valid (codes default_category) ≡ true
unfolding is_valid listed category_order any
default_valid = refl

exact_in-valid :
    (d : Text) (table : Keywords) (name : Text)
    → all_listed table ≡ true
    → exact_in d table ≡ some name
    → is_valid name ≡ true
unfolding exact_in
exact_in-valid d [] name ok h = cc
exact_in-valid d ((c, ks) ∷ rest) name ok h = ground (arith, exact_in-valid d rest name)

rank_categories-valid :
    (cands : List Text) (table : Keywords) (r : Ranked)
    → all_listed table ≡ true
    → is_valid r.best_category ≡ true
    → is_valid (rank_categories cands table r).best_category ≡ true
unfolding rank_categories
rank_categories-valid cands [] r ok h = h
rank_categories-valid cands ((c, ks) ∷ rest) r ok h =
    rank_categories-valid cands rest _ (ground arith) (ground arith)

some_if-valid :
    (b : Bool) (c name : Text)
    → (if b then some c else none) ≡ some name
    → is_valid c ≡ true
    → is_valid name ≡ true
some_if-valid b c name h k = ground arith

fuzzy_in-valid :
    (t : Text) (table : Keywords) (name : Text)
    → all_listed table ≡ true
    → fuzzy_in t table ≡ some name
    → is_valid name ≡ true
unfolding fuzzy_in
fuzzy_in-valid t [] name ok h = cc
fuzzy_in-valid t ((c, ks) ∷ rest) name ok h =
    some_if-valid _ _ name h
      (rank_categories-valid (candidates_of t) rest _ (ground arith) (ground arith))

try_fuzzy-valid :
    (desc name : Text) → try_fuzzy_keyword_category desc ≡ some name → is_valid name ≡ true
unfolding try_fuzzy_keyword_category
try_fuzzy-valid desc name h = elim (Bool-cases (truthy (normalize_for_match desc))) [
  | inl e ↦
      fuzzy_in-valid (normalize_for_match desc) (keyword_texts category_keywords) name
        keywords_listed (ground arith)
  | inr e ↦ ground arith
]

try_exact-valid :
    (desc name : Text) → try_exact_keyword_category desc ≡ some name → is_valid name ≡ true
unfolding try_exact_keyword_category
try_exact-valid desc name h =
    exact_in-valid (lower desc) (keyword_texts category_keywords) name keywords_listed h

supplies_valid : is_valid (codes "Indoor Supplies") ≡ true
unfolding is_valid listed category_order any
supplies_valid = refl

product_cases-valid :
    (a b c : Bool) (name : Text)
    → (if a
        then some (codes "Groceries")
        else if b
        then some (codes "Groceries")
        else if c
        then some (codes "Indoor Supplies")
        else none)
      ≡ some name
    → is_valid name ≡ true
product_cases-valid true b c name h = subst (λ n. is_valid n ≡ true) (some-inj h) default_valid
product_cases-valid false true c name h = subst (λ n. is_valid n ≡ true) (some-inj h) default_valid
product_cases-valid false false true name h =
    subst (λ n. is_valid n ≡ true) (some-inj h) supplies_valid
product_cases-valid false false false name h = cc

product_rule-valid : (d name : Text) → product_rule d ≡ some name → is_valid name ≡ true
unfolding product_rule
product_rule-valid d name h =
    product_cases-valid (contains (codes "protein bar") d || contains (codes "protein bars") d)
      (contains (codes "enviro fee") d) (contains (codes "crest") d) name h

when_valid-valid :
    (o : Option Text) (s : DeterministicSource) (rest : Decided)
    → is_valid rest.0 ≡ true
    → is_valid (when_valid o s rest).0 ≡ true
when_valid-valid none s rest h = h
when_valid-valid (some name) s rest h = ground arith

when_found-valid :
    (o : Option Text) (s : DeterministicSource) (rest : Decided)
    → ((name : Text) → o ≡ some name → is_valid name ≡ true)
    → is_valid rest.0 ≡ true
    → is_valid (when_found o s rest).0 ≡ true
when_found-valid none s rest k h = h
when_found-valid (some name) s rest k h = let v = k name refl in ground arith

-- The deterministic category is always one of the list, whatever the rules, the description, the
-- source and the merchant are.
pub deterministic_category_valid :
    (rules : List CategoryRule) (desc : Text) (source merchant : Option Text)
    → is_valid (deterministic_category rules desc source merchant).0 ≡ true
unfolding deterministic_category
deterministic_category_valid rules desc source merchant =
    let last : Decided = (codes default_category, default) in
    let fourth : Decided = when_found (try_fuzzy_keyword_category desc) fuzzy last in
    let third : Decided = when_found (try_exact_keyword_category desc) exact fourth in
    let rule : Option Text = match_runtime_category_rule rules desc source merchant in
    let second : Decided = when_valid rule mapping_rule third in
    let first : Decided = when_found (product_rule (lower desc)) exact second in
    let cached : Option Text =
      get (normalize_for_match desc) (text_pairs verified_category_overrides) in
    when_valid-valid cached verified_cache first (
      when_found-valid (product_rule (lower desc)) exact second (product_rule-valid (lower desc)) (
        when_valid-valid rule mapping_rule third (
          when_found-valid (try_exact_keyword_category desc) exact fourth (try_exact-valid desc) (
            when_found-valid (try_fuzzy_keyword_category desc) fuzzy last (try_fuzzy-valid desc)
              default_valid))))
