-- ===== src/Categorization/Pipeline/Learned.antt =====
-- What an approved mapping changes.

use home_budget_pipeline.Prelude.{
  ◌≡◌, refl, ◌≢◌, inl, inr, Bool, true, Option, none, some, List, ◌∷◌, arith, Bool-cases, sym,
  subst, ap, ◌∙◌, if◌then◌else◌,
}
use home_budget_pipeline.Prelude.Text.{Text, truthy, ◌==ₜ◌, text_eq, text_refl}
use home_budget_pipeline.Prelude.Words.{normalize_for_match}
use home_budget_pipeline.Prelude.Result.{returns, require-inversion}
use home_budget_pipeline.Categorization.Tables.{verified_category_overrides}
use home_budget_pipeline.Categorization.Logic.{CategoryRule, get, listed, text_pairs}
use home_budget_pipeline.Categorization.Logic.Rules.{match_runtime_category_rule}
use home_budget_pipeline.Categorization.Logic.Keywords.{
  try_exact_keyword_category, try_fuzzy_keyword_category,
}
use home_budget_pipeline.Categorization.Pipeline.{
  rule, learned_mapping, CategoryDecision, CatalogEntry, names, resolved_category,
  CategoryMappingPipeline, decision, no_decision, decide_or, AiFallback, ask_ai, categorize_steps,
  categorize, approve_with, approve_mapping, empty_description,
}
use home_budget_pipeline.Categorization.Pipeline.Decide.{resolved-listed}

-- A name of the catalogue is its own canonical name: no alias of another category hides it.
abbrev pub IsConsistent : List CatalogEntry → Type 0
IsConsistent catalog =
    (name : Text)
    → listed name (names catalog) ≡ true
    → resolved_category catalog (some name) ≡ some name

-- The pipeline with one more learned mapping.
abbrev learn : Text → Text → CategoryMappingPipeline → CategoryMappingPipeline
learn key name p = record p { learned_mappings = (key, name) ∷ p.learned_mappings }

approve_with-inversion :
    (p p' : CategoryMappingPipeline) (key : Text) (o : Option Text) (d : CategoryDecision)
    → approve_with p key o ≡ returns (d, p')
    → (name : Text) × (o ≡ some name) × (d.category ≡ some name) × (p' ≡ learn key name p)
approve_with-inversion p p' key none d h = cc
approve_with-inversion p p' key (some name) d h = (name, refl, ground arith, ground arith)

approve-inversion :
    (catalog : List CatalogEntry) (p p' : CategoryMappingPipeline) (desc category : Text)
    (d : CategoryDecision)
    → approve_mapping catalog p desc category ≡ returns (d, p')
    → (truthy (normalize_for_match desc) ≡ true)
      × (name : Text) × (resolved_category catalog (some category) ≡ some name)
      × (d.category ≡ some name)
      × (p' ≡ learn (normalize_for_match desc) name p)
unfolding approve_mapping
approve-inversion catalog p p' desc category d h =
    let (ok, rest) = require-inversion (truthy (normalize_for_match desc)) empty_description _ h in
    let (name, e, c, q) =
      approve_with-inversion p p' (normalize_for_match desc)
        (resolved_category catalog (some category)) d rest in
    (ok, name, e, c, q)

get-learned : (key name : Text) (d : List (Text × Text)) → get key ((key, name) ∷ d) ≡ some name
unfolding get
get-learned key name d = rw (text_refl key) refl

get-other :
    (key other name : Text) (d : List (Text × Text))
    → other ≢ key
    → get other ((key, name) ∷ d) ≡ get other d
unfolding get
get-other key other name d h = elim (Bool-cases (key ==ₜ other)) [
  | inl e ↦ absurd (h (sym (text_eq key other e)))
  | inr e ↦ rw e refl
]

-- The third step decides where the first two do not.
third_step :
    (a b c : Option Text) (name : Text) (rest : CategoryDecision)
    → a ≡ none
    → b ≡ none
    → c ≡ some name
    → decide_or a rule 100 "verified product override" (
        decide_or b rule 100 "configured category mapping rule"
          (decide_or c learned_mapping 100 "previously approved product mapping" rest))
      ≡ decision name learned_mapping 100 "previously approved product mapping"
third_step a b c name rest h k l = rw (h, k, l) refl

steps-learned :
    (catalog : List CatalogEntry) (rules : List CategoryRule) (p : CategoryMappingPipeline)
    (desc : Text) (source merchant : Option Text) (name : Text)
    → resolved_category catalog
        (get (normalize_for_match desc) (text_pairs verified_category_overrides))
      ≡ none
    → resolved_category catalog (match_runtime_category_rule rules desc source merchant) ≡ none
    → resolved_category catalog (get (normalize_for_match desc) p.learned_mappings) ≡ some name
    → categorize_steps catalog rules p desc source merchant
      ≡ decision name learned_mapping 100 "previously approved product mapping"
unfolding categorize_steps
steps-learned catalog rules p desc source merchant name h k l = third_step _ _ _ name _ h k l

if-true : (b : Bool) (c d e : CategoryDecision) → b ≡ true → c ≡ e → (if b then c else d) ≡ e
if-true b c d e h k = rw h k

-- After an approval, a description of the same normal form gets the approved category as a learned
-- mapping, where no verified override and no runtime rule decides, in a catalogue whose names are
-- their own canonical names.
pub approval_is_learned :
    (catalog : List CatalogEntry) (rules : List CategoryRule) (p p' : CategoryMappingPipeline)
    (desc category desc' : Text) (source merchant : Option Text) (d : CategoryDecision)
    → IsConsistent catalog
    → approve_mapping catalog p desc category ≡ returns (d, p')
    → normalize_for_match desc' ≡ normalize_for_match desc
    → resolved_category catalog
        (get (normalize_for_match desc') (text_pairs verified_category_overrides))
      ≡ none
    → resolved_category catalog (match_runtime_category_rule rules desc' source merchant) ≡ none
    → (name : Text) × (resolved_category catalog (some category) ≡ some name)
      × (d.category ≡ some name)
      × (categorize catalog rules p' desc' source merchant
          ≡ decision name learned_mapping 100 "previously approved product mapping")
unfolding categorize
approval_is_learned catalog rules p p' desc category desc' source merchant d good done same verified
      runtime =
    let (ok, name, e, c, q) = approve-inversion catalog p p' desc category d done in
    let found : get (normalize_for_match desc') p'.learned_mappings ≡ some name =
      subst
        (λ (x : CategoryMappingPipeline).
          get (normalize_for_match desc') x.learned_mappings ≡ some name)
        (sym q)
        (subst (λ k. get k ((normalize_for_match desc, name) ∷ p.learned_mappings) ≡ some name)
          (sym same) (get-learned (normalize_for_match desc) name p.learned_mappings)) in
    let known : resolved_category catalog (get (normalize_for_match desc') p'.learned_mappings)
        ≡ some name =
      ap (resolved_category catalog) found
      ∙ good name (resolved-listed catalog (some category) name e) in
    (
      name,
      e,
      c,
      if-true (truthy (normalize_for_match desc')) _ _ _ (ap truthy same ∙ ok)
          (steps-learned catalog rules p' desc' source merchant name verified runtime known),
    )

steps-other :
    (catalog : List CatalogEntry) (rules : List CategoryRule) (p p' : CategoryMappingPipeline)
    (desc : Text) (source merchant : Option Text)
    → get (normalize_for_match desc) p'.learned_mappings
      ≡ get (normalize_for_match desc) p.learned_mappings
    → p'.ai_fallback ≡ p.ai_fallback
    → categorize_steps catalog rules p' desc source merchant
      ≡ categorize_steps catalog rules p desc source merchant
unfolding categorize_steps
steps-other catalog rules p p' desc source merchant h k =
    let overrides : Option Text =
      resolved_category catalog
        (get (normalize_for_match desc) (text_pairs verified_category_overrides)) in
    let runtime : Option Text =
      resolved_category catalog (match_runtime_category_rule rules desc source merchant) in
    let exact : Option Text = resolved_category catalog (try_exact_keyword_category desc) in
    let fuzzy : Option Text = resolved_category catalog (try_fuzzy_keyword_category desc) in
    let steps : Option Text → Option AiFallback → CategoryDecision = λ known fallback.
      decide_or overrides rule 100 "verified product override" (
        decide_or runtime rule 100 "configured category mapping rule" (
          decide_or (resolved_category catalog known) learned_mapping 100
            "previously approved product mapping"
            (decide_or exact rule 95 "deterministic keyword rule" (
              decide_or fuzzy rule 80 "deterministic fuzzy keyword rule"
                (ask_ai catalog fallback desc source merchant))))) in
    ap (λ known. steps known p'.ai_fallback) h
    ∙ ap (steps (get (normalize_for_match desc) p.learned_mappings)) k

-- An approval changes no decision on a description of another normal form.
pub approval_leaves_others :
    (catalog : List CatalogEntry) (rules : List CategoryRule) (p p' : CategoryMappingPipeline)
    (desc category desc' : Text) (source merchant : Option Text) (d : CategoryDecision)
    → approve_mapping catalog p desc category ≡ returns (d, p')
    → normalize_for_match desc' ≢ normalize_for_match desc
    → categorize catalog rules p' desc' source merchant
      ≡ categorize catalog rules p desc' source merchant
unfolding categorize
approval_leaves_others catalog rules p p' desc category desc' source merchant d done other =
    let (ok, name, e, c, q) = approve-inversion catalog p p' desc category d done in
    let steps : categorize_steps catalog rules p' desc' source merchant
        ≡ categorize_steps catalog rules p desc' source merchant =
      subst
        (λ x.
          categorize_steps catalog rules x desc' source merchant
          ≡ categorize_steps catalog rules p desc' source merchant)
        (sym q)
        (steps-other catalog rules p (learn (normalize_for_match desc) name p) desc' source merchant
          (get-other (normalize_for_match desc) (normalize_for_match desc') name p.learned_mappings
            other)
          refl) in
    ap
      (λ s.
        if truthy (normalize_for_match desc')
        then s
        else no_decision "empty normalized description")
      steps
