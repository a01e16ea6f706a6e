-- ===== src/Categorization/Logic.antt =====
-- categorization/logic.py: the names of categories, and the runtime rules. Priorities are integers.
pub mod Keywords
pub mod Rules
use home_budget_pipeline.Prelude.{
  Bool, false, ◌&&◌, Option, none, some, List, [], ◌∷◌, map, any, if◌then◌else◌,
}
use home_budget_pipeline.Prelude.Int.{ℤ, pos}
use home_budget_pipeline.Prelude.Text.{Text, codes, ◌==ₜ◌, truthy, lower, strip, contains}
use home_budget_pipeline.Prelude.Words.{normalize_for_match}
use home_budget_pipeline.Categorization.Tables.{category_order, category_aliases}
use Prim.Native.String.{String}

abbrev pub texts : List String → List Text
texts names = map codes names

abbrev pub text_pairs : List (String × String) → List (Text × Text)
text_pairs [] = []
text_pairs ((a, b) ∷ rest) = (codes a, codes b) ∷ text_pairs rest

-- `name in names`
unfoldable pub listed : Text → List Text → Bool
unfolding any
listed name names = any (λ n. n ==ₜ name) names

-- `mapping.get(key)` of a dictionary without repeated keys.
unfoldable pub get : Text → List (Text × Text) → Option Text
get key [] = none
get key ((k, v) ∷ rest) = if k ==ₜ key then some v else get key rest

-- `category in CATEGORY_ORDER`
unfoldable pub is_valid : Text → Bool
unfolding listed category_order
is_valid name = listed name (texts category_order)

unfoldable pub valid_option : Option Text → Bool
unfolding is_valid
valid_option none = false
valid_option (some name) = is_valid name

-- The first name with this normal form.
unfoldable pub find_normalized : Text → List Text → Option Text
unfolding normalize_for_match
find_normalized lowered [] = none
find_normalized lowered (name ∷ names) =
    if normalize_for_match name ==ₜ lowered then some name else find_normalized lowered names

abbrev pub or_else : Option Text → Option Text → Option Text
or_else none other = other
or_else (some name) other = some name

-- `canonicalize_category` of a text that is not empty.
unfoldable pub canonicalize_cleaned : Text → Option Text
unfolding is_valid find_normalized get category_order category_aliases
canonicalize_cleaned cleaned =
    if is_valid cleaned
    then some cleaned
    else or_else (find_normalized (normalize_for_match cleaned) (texts category_order))
        (get (normalize_for_match cleaned) (text_pairs category_aliases))

-- `canonicalize_category`
unfoldable pub canonicalize_category : Option Text → Option Text
unfolding canonicalize_cleaned strip
canonicalize_category none = none
canonicalize_category (some category) =
    if truthy category then canonicalize_cleaned (strip category) else none

-- `priority`: missing, a number, or a value that `int` refuses.
pub data PriorityInput : Type 0 where
  missing not_a_number : PriorityInput
  number : ℤ → PriorityInput

-- A rule as it is configured, with `str(… or '')` applied to each text.
pub record RuleInput : Type 0 where
  pub category_name : Text
  pub match_type : Text
  pub match_text : Text
  pub source : Text
  pub merchant : Text
  pub priority : PriorityInput

pub data MatchType : Type 0 where
  exact contains_text : MatchType

pub record CategoryRule : Type 0 where
  pub category_name : Text
  pub match_type : MatchType
  pub match_text_norm : Text
  pub source_norm : Option Text
  pub merchant_norm : Option Text
  pub priority : ℤ

abbrev pub some_text : Text → Option Text
some_text t = if truthy t then some t else none

abbrev pub priority_of : PriorityInput → ℤ
priority_of missing = pos 100
priority_of not_a_number = pos 100
priority_of (number n) = n

-- `str(raw.get('match_type') or 'contains').strip().lower()`
unfoldable pub match_type_of : Text → Option MatchType
unfolding strip lower
match_type_of raw =
    let name = lower (strip (if truthy raw then raw else codes "contains")) in
    if name ==ₜ codes "exact"
    then some exact
    else if name ==ₜ codes "contains"
    then some contains_text
    else none

abbrev pub rule_with : RuleInput → Option Text → Option MatchType → Option CategoryRule
rule_with raw (some name) (some kind) =
    if is_valid name && truthy (normalize_for_match raw.match_text)
    then some (record {
      category_name = name;
      match_type = kind;
      match_text_norm = normalize_for_match raw.match_text;
      source_norm = some_text (normalize_for_match raw.source);
      merchant_norm = some_text (normalize_for_match raw.merchant);
      priority = priority_of raw.priority;
    })
    else none
rule_with raw _ _ = none

-- The body of the loop of `set_runtime_category_rules`.
unfoldable pub normalize_rule : RuleInput → Option CategoryRule
unfolding canonicalize_category match_type_of is_valid normalize_for_match
normalize_rule raw =
    rule_with raw (canonicalize_category (some raw.category_name)) (match_type_of raw.match_type)

abbrev pub keep_rule : Option CategoryRule → List CategoryRule → List CategoryRule
keep_rule none rest = rest
keep_rule (some r) rest = r ∷ rest

unfoldable pub normalize_rules : List RuleInput → List CategoryRule
unfolding normalize_rule
normalize_rules [] = []
normalize_rules (raw ∷ rest) = keep_rule (normalize_rule raw) (normalize_rules rest)
