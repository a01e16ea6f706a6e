-- ===== src/Categorization/Pipeline.antt =====
-- categorization/pipeline.py and catalog.py: the resolver of categories. The catalogue, which is read
-- from a configuration file, and the fallback by AI are parameters; confidences are hundredths.
pub mod Decide
pub mod Gaps
pub mod Learned
mod Examples
use Prim.Native.String.{String}
use home_budget_pipeline.Prelude.{
  ℕ, Bool, true, false, Option, none, some, List, [], ◌∷◌, map, is_some, if◌then◌else◌,
}
use home_budget_pipeline.Prelude.Text.{Text, ◌==ₜ◌, truthy}
use home_budget_pipeline.Prelude.Words.{normalize_for_match}
use home_budget_pipeline.Prelude.Result.{Result, raises, returns, ◌>>=◌, ◌>>◌, require}
use home_budget_pipeline.Categorization.Tables.{verified_category_overrides}
use home_budget_pipeline.Categorization.Logic.{CategoryRule, get, listed, text_pairs}
use home_budget_pipeline.Categorization.Logic.Rules.{match_runtime_category_rule}
use home_budget_pipeline.Categorization.Logic.Keywords.{
  try_exact_keyword_category, try_fuzzy_keyword_category,
}

pub data CategoryProvenance : Type 0 where
  rule learned_mapping ai manual unresolved : CategoryProvenance

pub record CategoryDecision : Type 0 where
  pub category : Option Text
  pub provenance : CategoryProvenance
  pub confidence : Option ℕ
  pub rationale : String
  pub requires_review : Bool

-- One category of the catalogue with its aliases.
pub record CatalogEntry : Type 0 where
  pub name : Text
  pub aliases : List Text

-- `category_order`
abbrev pub name_of : CatalogEntry → Text
name_of e = e.name

abbrev pub names : List CatalogEntry → List Text
names catalog = map name_of catalog

-- The assignments of one entry to the dictionary of aliases, the latest first.
unfoldable pub entry_aliases : Text → List Text → List (Text × Text) → List (Text × Text)
unfolding normalize_for_match
entry_aliases name [] d = d
entry_aliases name (a ∷ rest) d = entry_aliases name rest ((normalize_for_match a, name) ∷ d)

-- `category_aliases`; the latest assignment to a key stands first.
unfoldable pub aliases_from : List CatalogEntry → List (Text × Text) → List (Text × Text)
unfolding entry_aliases
aliases_from [] d = d
aliases_from (e ∷ rest) d = aliases_from rest (entry_aliases e.name (e.name ∷ e.aliases) d)

-- `canonicalize_category` of catalog.py
unfoldable pub canonicalize : List CatalogEntry → Option Text → Option Text
unfolding aliases_from get normalize_for_match
canonicalize catalog none = none
canonicalize catalog (some category) =
    if truthy category then get (normalize_for_match category) (aliases_from catalog []) else none

-- `category in VALID_CATEGORIES`, for a category that may be missing: it is kept if it is valid.
unfoldable pub if_valid : List CatalogEntry → Option Text → Option Text
unfolding listed
if_valid catalog none = none
if_valid catalog (some name) = if listed name (names catalog) then some name else none

-- `canonicalize_category(raw)`, where it is valid.
unfoldable pub resolved_category : List CatalogEntry → Option Text → Option Text
unfolding if_valid canonicalize
resolved_category catalog raw = if_valid catalog (canonicalize catalog raw)

-- `CategoryDecision.resolved`
unfoldable pub resolved : List CatalogEntry → CategoryDecision → Bool
unfolding if_valid
resolved catalog d = is_some (if_valid catalog d.category)

abbrev pub AiFallback : Type 0
AiFallback = Text → Option Text → Option Text → CategoryDecision

-- The state of a pipeline; the latest assignment to a learned key stands first.
pub record CategoryMappingPipeline : Type 0 where
  pub learned_mappings : List (Text × Text)
  pub ai_fallback : Option AiFallback

-- One entry of the dictionary comprehension of `__init__`: a later entry replaces an earlier one.
abbrev pub keep_mapping : Text → Option Text → List (Text × Text) → List (Text × Text)
keep_mapping key none d = d
keep_mapping key (some category) d = (key, category) ∷ d

unfoldable pub load_mappings :
    List CatalogEntry → List (Text × Text) → List (Text × Text) → List (Text × Text)
unfolding resolved_category normalize_for_match
load_mappings catalog [] d = d
load_mappings catalog ((key, raw) ∷ rest) d =
    load_mappings catalog rest
      (keep_mapping (normalize_for_match key) (resolved_category catalog (some raw)) d)

-- `d[key] = value`: in the place of the key, or at the end.
unfoldable pub put : Text → Text → List (Text × Text) → List (Text × Text)
put key value [] = (key, value) ∷ []
put key value ((k, v) ∷ rest) = if k ==ₜ key then (k, value) ∷ rest else (k, v) ∷ put key value rest

-- `d.update(other)`
unfoldable pub put_all : List (Text × Text) → List (Text × Text) → List (Text × Text)
unfolding put
put_all d [] = d
put_all d ((key, value) ∷ rest) = put_all (put key value d) rest

-- `__init__`, with the mappings that the store has loaded.
unfoldable pub make_pipeline :
    List CatalogEntry
    → List (Text × Text)
    → List (Text × Text)
    → Option AiFallback
    → CategoryMappingPipeline
unfolding load_mappings put_all
make_pipeline catalog learned stored fallback = record {
  learned_mappings = load_mappings catalog (put_all learned stored) [];
  ai_fallback = fallback;
}

abbrev pub decision : Text → CategoryProvenance → ℕ → String → CategoryDecision
decision category provenance confidence rationale = record {
  category = some category;
  provenance = provenance;
  confidence = some confidence;
  rationale = rationale;
  requires_review = false;
}

abbrev pub no_decision : String → CategoryDecision
no_decision rationale = record {
  category = none;
  provenance = unresolved;
  confidence = none;
  rationale = rationale;
  requires_review = true;
}

-- A step of `categorize`: a decision where the category is valid, or what follows.
abbrev pub decide_or :
    Option Text → CategoryProvenance → ℕ → String → CategoryDecision → CategoryDecision
decide_or none provenance confidence rationale rest = rest
decide_or (some category) provenance confidence rationale rest =
    decision category provenance confidence rationale

-- The decision of the fallback under its canonical category.
abbrev pub from_ai : CategoryDecision → Option Text → CategoryDecision
from_ai d none = no_decision "no deterministic or AI mapping"
from_ai d (some category) = record d { category = some category; provenance = ai }

unfoldable pub ask_ai :
    List CatalogEntry → Option AiFallback → Text → Option Text → Option Text → CategoryDecision
unfolding resolved_category
ask_ai catalog none description source merchant = no_decision "no deterministic or AI mapping"
ask_ai catalog (some fallback) description source merchant =
    let d = fallback description source merchant in from_ai d (resolved_category catalog d.category)

-- The steps of `categorize` for a description that is not empty.
unfoldable pub categorize_steps :
    List CatalogEntry
    → List CategoryRule
    → CategoryMappingPipeline
    → Text
    → Option Text
    → Option Text
    → CategoryDecision
unfolding resolved_category get normalize_for_match match_runtime_category_rule
    try_exact_keyword_category try_fuzzy_keyword_category ask_ai verified_category_overrides
categorize_steps catalog rules p description source merchant =
    let normalized = normalize_for_match description in
    let verified =
      resolved_category catalog (get normalized (text_pairs verified_category_overrides)) in
    let runtime =
      resolved_category catalog (match_runtime_category_rule rules description source merchant) in
    let learned = resolved_category catalog (get normalized p.learned_mappings) in
    let exact = resolved_category catalog (try_exact_keyword_category description) in
    let fuzzy = resolved_category catalog (try_fuzzy_keyword_category description) in
    decide_or verified rule 100 "verified product override" (
      decide_or runtime rule 100 "configured category mapping rule" (
        decide_or learned learned_mapping 100 "previously approved product mapping" (
          decide_or exact rule 95 "deterministic keyword rule" (
            decide_or fuzzy rule 80 "deterministic fuzzy keyword rule"
              (ask_ai catalog p.ai_fallback description source merchant)))))

-- `CategoryMappingPipeline.categorize`
unfoldable pub categorize :
    List CatalogEntry
    → List CategoryRule
    → CategoryMappingPipeline
    → Text
    → Option Text
    → Option Text
    → CategoryDecision
unfolding categorize_steps normalize_for_match
categorize catalog rules p description source merchant =
    if truthy (normalize_for_match description)
    then categorize_steps catalog rules p description source merchant
    else no_decision "empty normalized description"

-- The `ValueError`s of `approve_mapping`.
pub data ApprovalError : Type 0 where
  empty_description invalid_category : ApprovalError

-- `approve_mapping` with a valid category, or without one.
abbrev pub approve_with :
    CategoryMappingPipeline
    → Text
    → Option Text
    → Result ApprovalError (CategoryDecision × CategoryMappingPipeline)
approve_with p normalized none = raises invalid_category
approve_with p normalized (some canonical) = returns (
  decision canonical manual 100 "human-approved category mapping",
  record p { learned_mappings = (normalized, canonical) ∷ p.learned_mappings },
)

-- `approve_mapping` of a pipeline without a mapping store.
unfoldable pub approve_mapping :
    List CatalogEntry
    → CategoryMappingPipeline
    → Text
    → Text
    → Result ApprovalError (CategoryDecision × CategoryMappingPipeline)
unfolding resolved_category normalize_for_match
approve_mapping catalog p description category = do
  require (truthy (normalize_for_match description)) empty_description
  approve_with p (normalize_for_match description) (resolved_category catalog (some category))
