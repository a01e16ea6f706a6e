-- ===== src/Categorization/Pipeline/Gaps.antt =====
-- When `categorize` asks the fallback.
use home_budget_pipeline.Prelude.{
  ℕ, ◌≡◌, refl, ◌≢◌, Bool, true, false, Option, none, some, List, if◌then◌else◌,
}
use home_budget_pipeline.Prelude.Text.{Text, truthy}
use home_budget_pipeline.Prelude.Words.{normalize_for_match}
use home_budget_pipeline.Categorization.Tables.{verified_category_overrides}
use home_budget_pipeline.Categorization.Logic.{CategoryRule, get, text_pairs}
use home_budget_pipeline.Categorization.Logic.Rules.{match_runtime_category_rule}
use home_budget_pipeline.Categorization.Logic.Keywords.{
  try_exact_keyword_category, try_fuzzy_keyword_category,
}
use Prim.Native.String.{String}
use home_budget_pipeline.Categorization.Pipeline.{
  CategoryProvenance, CategoryDecision, CatalogEntry, resolved_category, CategoryMappingPipeline,
  no_decision, decide_or, ask_ai, categorize_steps, categorize,
}
use home_budget_pipeline.Categorization.Pipeline.Decide.{before_ai}

-- The same pipeline without a fallback.
abbrev pub without_ai : CategoryMappingPipeline → CategoryMappingPipeline
without_ai p = record p { ai_fallback = none }

decide_or-same :
    (o : Option Text) (p : CategoryProvenance) (n : ℕ) (why : String)
    (rest rest' : CategoryDecision)
    → (rest.category ≢ none → rest' ≡ rest)
    → (decide_or o p n why rest).category ≢ none
    → decide_or o p n why rest' ≡ decide_or o p n why rest
decide_or-same none p n why rest rest' h k = h k
decide_or-same (some name) p n why rest rest' h k = refl

before_ai-same :
    (catalog : List CatalogEntry) (rules : List CategoryRule) (learned : List (Text × Text))
    (desc : Text) (source merchant : Option Text) (rest rest' : CategoryDecision)
    → (rest.category ≢ none → rest' ≡ rest)
    → (before_ai catalog rules learned desc source merchant rest).category ≢ none
    → before_ai catalog rules learned desc source merchant rest'
      ≡ before_ai catalog rules learned desc source merchant rest
before_ai-same catalog rules learned desc source merchant rest rest' h =
    let at : Option Text → Option Text = resolved_category catalog in
    let fuzzy = at (try_fuzzy_keyword_category desc) in
    let exact = at (try_exact_keyword_category desc) in
    let known = at (get (normalize_for_match desc) learned) in
    let runtime = at (match_runtime_category_rule rules desc source merchant) in
    let overrides = at (get (normalize_for_match desc) (text_pairs verified_category_overrides)) in
    decide_or-same overrides _ _ _ _ _ (
      decide_or-same runtime _ _ _ _ _ (
        decide_or-same known _ _ _ _ _
          (decide_or-same exact _ _ _ _ _ (decide_or-same fuzzy _ _ _ _ _ h))))

if-same :
    (b : Bool) (c c' d : CategoryDecision)
    → (c.category ≢ none → c' ≡ c)
    → (if b then c else d).category ≢ none
    → (if b then c' else d) ≡ (if b then c else d)
if-same true c c' d h k = h k
if-same false c c' d h k = refl

gap-absurd :
    (fallback : CategoryDecision) (why : String)
    → (no_decision why).category ≢ none
    → fallback ≡ no_decision why
gap-absurd fallback why k = absurd (k refl)

steps-same :
    (catalog : List CatalogEntry) (rules : List CategoryRule) (p : CategoryMappingPipeline)
    (desc : Text) (source merchant : Option Text)
    → (categorize_steps catalog rules (without_ai p) desc source merchant).category ≢ none
    → categorize_steps catalog rules p desc source merchant
      ≡ categorize_steps catalog rules (without_ai p) desc source merchant
unfolding categorize_steps ask_ai
steps-same catalog rules p desc source merchant =
    before_ai-same catalog rules p.learned_mappings desc source merchant
      (no_decision "no deterministic or AI mapping")
      (ask_ai catalog p.ai_fallback desc source merchant)
      (gap-absurd (ask_ai catalog p.ai_fallback desc source merchant)
        "no deterministic or AI mapping")

-- Where the deterministic steps find a category, the fallback changes nothing: a pipeline with it
-- decides as one without it.
pub ai_only_fills_gaps :
    (catalog : List CatalogEntry) (rules : List CategoryRule) (p : CategoryMappingPipeline)
    (desc : Text) (source merchant : Option Text)
    → (categorize catalog rules (without_ai p) desc source merchant).category ≢ none
    → categorize catalog rules p desc source merchant
      ≡ categorize catalog rules (without_ai p) desc source merchant
unfolding categorize
ai_only_fills_gaps catalog rules p desc source merchant =
    if-same (truthy (normalize_for_match desc))
      (categorize_steps catalog rules (without_ai p) desc source merchant)
      (categorize_steps catalog rules p desc source merchant)
      (no_decision "empty normalized description") (steps-same catalog rules p desc source merchant)
