-- ===== src/Categorization/Pipeline/Decide.antt =====
-- What `categorize` answers.
use home_budget_pipeline.Prelude.{
  ℕ, ◌≡◌, refl, ◌≢◌, ◌⊎◌, inl, inr, Bool, true, false, Option, none, some, List, arith,
  if◌then◌else◌,
}
use home_budget_pipeline.Prelude.Text.{Text, truthy}
use home_budget_pipeline.Prelude.Words.{normalize_for_match}
use home_budget_pipeline.Categorization.Tables.{verified_category_overrides}
use home_budget_pipeline.Categorization.Logic.{CategoryRule, get, listed, text_pairs}
use home_budget_pipeline.Categorization.Logic.Rules.{match_runtime_category_rule}
use home_budget_pipeline.Categorization.Logic.Keywords.{
  try_exact_keyword_category, try_fuzzy_keyword_category,
}
use Prim.Native.String.{String}
use home_budget_pipeline.Categorization.Pipeline.{
  CategoryProvenance, rule, learned_mapping, unresolved, ai, CategoryDecision, CatalogEntry, names,
  canonicalize, if_valid, resolved_category, AiFallback, CategoryMappingPipeline, no_decision,
  decide_or, from_ai, ask_ai, categorize_steps, categorize,
}

-- What finds a category with a provenance: the verified products, the runtime rules or the keywords,
-- the learned mappings, or the fallback.
module _ (catalog : List CatalogEntry) (rules : List CategoryRule) (p : CategoryMappingPipeline)
    (desc : Text) (source merchant : Option Text) where
  pub data Finds : Text → CategoryProvenance → Type 0 where
    verified :
        (name : Text)
        → resolved_category catalog
            (get (normalize_for_match desc) (text_pairs verified_category_overrides))
          ≡ some name
        → Finds name rule
    runtime :
        (name : Text)
        → resolved_category catalog (match_runtime_category_rule rules desc source merchant)
          ≡ some name
        → Finds name rule
    known :
        (name : Text)
        → resolved_category catalog (get (normalize_for_match desc) p.learned_mappings) ≡ some name
        → Finds name learned_mapping
    exact_keyword :
        (name : Text)
        → resolved_category catalog (try_exact_keyword_category desc) ≡ some name
        → Finds name rule
    fuzzy_keyword :
        (name : Text)
        → resolved_category catalog (try_fuzzy_keyword_category desc) ≡ some name
        → Finds name rule
    answered :
        (ask : AiFallback) (name : Text)
        → p.ai_fallback ≡ some ask
        → resolved_category catalog (ask desc source merchant).category ≡ some name
        → Finds name ai

-- The decision names a category of the catalogue that one of the sources finds for this item, or
-- names none, is unresolved and asks for a review.
abbrev pub IsSound :
    (Text → CategoryProvenance → Type 0) → List CatalogEntry → CategoryDecision → Type 0
IsSound finds catalog d =
    ((name : Text) × (d.category ≡ some name)
      × (listed name (names catalog) ≡ true)
      × (d.provenance ≢ unresolved)
      × finds name d.provenance)
    ⊎ ((d.category ≡ none) × (d.provenance ≡ unresolved) × (d.requires_review ≡ true))

if_valid-listed :
    (catalog : List CatalogEntry) (o : Option Text) (name : Text)
    → if_valid catalog o ≡ some name
    → listed name (names catalog) ≡ true
unfolding if_valid
if_valid-listed catalog none name h = cc
if_valid-listed catalog (some n) name h = ground arith

pub resolved-listed :
    (catalog : List CatalogEntry) (raw : Option Text) (name : Text)
    → resolved_category catalog raw ≡ some name
    → listed name (names catalog) ≡ true
unfolding resolved_category
resolved-listed catalog raw name h = if_valid-listed catalog (canonicalize catalog raw) name h

decide_or-IsSound :
    (finds : Text → CategoryProvenance → Type 0) (catalog : List CatalogEntry) (raw : Option Text)
    (p : CategoryProvenance) (n : ℕ) (why : String) (rest : CategoryDecision)
    → p ≢ unresolved
    → ((name : Text) → resolved_category catalog raw ≡ some name → finds name p)
    → IsSound finds catalog rest
    → IsSound finds catalog (decide_or (resolved_category catalog raw) p n why rest)
decide_or-IsSound finds catalog raw p n why rest k found s =
    from_option (resolved_category catalog raw) refl
  where
    from_option :
        (o : Option Text)
        → resolved_category catalog raw ≡ o
        → IsSound finds catalog (decide_or o p n why rest)
    from_option none e = s
    from_option (some name) e =
        inl (name, refl, resolved-listed catalog raw name e, k, found name e)

ai≢unresolved : ai ≢ unresolved
ai≢unresolved e = cc

rule≢unresolved : rule ≢ unresolved
rule≢unresolved e = cc

learned≢unresolved : learned_mapping ≢ unresolved
learned≢unresolved e = cc

from_ai-IsSound :
    (finds : Text → CategoryProvenance → Type 0) (catalog : List CatalogEntry)
    (d : CategoryDecision) (o : Option Text)
    → resolved_category catalog d.category ≡ o
    → ((name : Text) → resolved_category catalog d.category ≡ some name → finds name ai)
    → IsSound finds catalog (from_ai d o)
from_ai-IsSound finds catalog d none e found = inr (refl, refl, refl)
from_ai-IsSound finds catalog d (some name) e found =
    inl (name, refl, resolved-listed catalog d.category name e, ai≢unresolved, found name e)

ask_ai-IsSound :
    (finds : Text → CategoryProvenance → Type 0) (catalog : List CatalogEntry)
    (fallback : Option AiFallback) (desc : Text) (source merchant : Option Text)
    → ((ask : AiFallback) (name : Text)
        → fallback ≡ some ask
        → resolved_category catalog (ask desc source merchant).category ≡ some name
        → finds name ai)
    → IsSound finds catalog (ask_ai catalog fallback desc source merchant)
unfolding ask_ai
ask_ai-IsSound finds catalog none desc source merchant found = inr (refl, refl, refl)
ask_ai-IsSound finds catalog (some fallback) desc source merchant found =
    let d = fallback desc source merchant in
    from_ai-IsSound finds catalog d (resolved_category catalog d.category) refl
      (λ name e. found fallback name refl e)

-- The deterministic steps, before what follows them.
abbrev pub before_ai :
    List CatalogEntry
    → List CategoryRule
    → List (Text × Text)
    → Text
    → Option Text
    → Option Text
    → CategoryDecision
    → CategoryDecision
before_ai catalog rules learned desc source merchant rest =
    decide_or
      (resolved_category catalog
        (get (normalize_for_match desc) (text_pairs verified_category_overrides)))
      rule 100 "verified product override"
      (decide_or
        (resolved_category catalog (match_runtime_category_rule rules desc source merchant)) rule
        100 "configured category mapping rule"
        (decide_or (resolved_category catalog (get (normalize_for_match desc) learned))
          learned_mapping 100 "previously approved product mapping"
          (decide_or (resolved_category catalog (try_exact_keyword_category desc)) rule 95
            "deterministic keyword rule"
            (decide_or (resolved_category catalog (try_fuzzy_keyword_category desc)) rule 80
              "deterministic fuzzy keyword rule" rest))))

module _ (catalog : List CatalogEntry) (rules : List CategoryRule) (p : CategoryMappingPipeline)
    (desc : Text) (source merchant : Option Text) where
  abbrev Found : Text → CategoryProvenance → Type 0
  Found = Finds catalog rules p desc source merchant

  before_ai-IsSound :
      (rest : CategoryDecision)
      → IsSound Found catalog rest
      → IsSound Found catalog (before_ai catalog rules p.learned_mappings desc source merchant rest)
  before_ai-IsSound rest s =
      let overrides = get (normalize_for_match desc) (text_pairs verified_category_overrides) in
      let runtime_rule = match_runtime_category_rule rules desc source merchant in
      let mapping = get (normalize_for_match desc) p.learned_mappings in
      let exact = try_exact_keyword_category desc in
      let fuzzy = try_fuzzy_keyword_category desc in
      decide_or-IsSound Found catalog overrides rule _ _ _ rule≢unresolved
        (λ name e. verified name e)
        (decide_or-IsSound Found catalog runtime_rule rule _ _ _ rule≢unresolved
          (λ name e. runtime name e)
          (decide_or-IsSound Found catalog mapping learned_mapping _ _ _ learned≢unresolved
            (λ name e. known name e)
            (decide_or-IsSound Found catalog exact rule _ _ _ rule≢unresolved
              (λ name e. exact_keyword name e)
              (decide_or-IsSound Found catalog fuzzy rule _ _ _ rule≢unresolved
                (λ name e. fuzzy_keyword name e) s))))

  steps-IsSound : IsSound Found catalog (categorize_steps catalog rules p desc source merchant)
  unfolding categorize_steps
  steps-IsSound = before_ai-IsSound (ask_ai catalog p.ai_fallback desc source merchant) (
      ask_ai-IsSound Found catalog p.ai_fallback desc source merchant
        (λ ask name given e. answered ask name given e))

if-IsSound :
    (finds : Text → CategoryProvenance → Type 0) (catalog : List CatalogEntry) (b : Bool)
    (c d : CategoryDecision)
    → IsSound finds catalog c
    → IsSound finds catalog d
    → IsSound finds catalog (if b then c else d)
if-IsSound finds catalog true c d h k = h
if-IsSound finds catalog false c d h k = k

-- Every decision of `categorize` names a category of the catalogue that the verified products, the
-- runtime rules, the learned mappings, the keywords or the fallback find for this very item, with the
-- provenance that says which, or it names none, is unresolved and asks for a review. So an item for
-- which none of these finds a category of the catalogue is left without one.
pub categorize-IsSound :
    (catalog : List CatalogEntry) (rules : List CategoryRule) (p : CategoryMappingPipeline)
    (desc : Text) (source merchant : Option Text)
    → IsSound
        (Finds catalog rules p desc source merchant)
        catalog
        (categorize catalog rules p desc source merchant)
unfolding categorize
categorize-IsSound catalog rules p desc source merchant =
    if-IsSound (Finds catalog rules p desc source merchant) catalog
      (truthy (normalize_for_match desc)) (categorize_steps catalog rules p desc source merchant)
      (no_decision "empty normalized description")
      (steps-IsSound catalog rules p desc source merchant) (inr (refl, refl, refl))
