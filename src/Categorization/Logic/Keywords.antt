-- ===== src/Categorization/Logic/Keywords.antt =====
-- categorization/logic.py: keywords, exact and fuzzy, and the deterministic category. Fuzzy scores are
-- exact fractions where the source has floating point numbers.
pub mod Valid
use home_budget_pipeline.Prelude.{
  ℕ, ◌+◌, ◌-◌, ◌*◌, Bool, false, not, ◌&&◌, ◌||◌, Option, none, some, List, [], ◌∷◌, ◌++◌, any,
  length, take, leb, ltb, ◌==◌, if◌then◌else◌,
}
use home_budget_pipeline.Prelude.Text.{Text, codes, ◌==ₜ◌, truthy, lower, split, join, contains}
use home_budget_pipeline.Prelude.Words.{normalize_for_match}
use home_budget_pipeline.Prelude.Difflib.{ratio}
use home_budget_pipeline.Prelude.Sets.{distinct}
use Prim.Native.String.{String}
use home_budget_pipeline.Categorization.Tables.{
  category_keywords, default_category, verified_category_overrides,
}
use home_budget_pipeline.Categorization.Logic.{texts, text_pairs, get, is_valid, CategoryRule}
use home_budget_pipeline.Categorization.Logic.Rules.{match_runtime_category_rule}

abbrev pub Keywords : Type 0
Keywords = List (Text × List Text)

abbrev pub keyword_texts : List (String × List String) → Keywords
keyword_texts [] = []
keyword_texts ((name, keywords) ∷ rest) = (codes name, texts keywords) ∷ keyword_texts rest

-- `phrase_ngrams`
unfoldable pub phrase_ngrams : List Text → ℕ → List Text
unfolding join
phrase_ngrams [] n = []
phrase_ngrams (t ∷ tokens) n =
    let rest = phrase_ngrams tokens n in
    if leb n (length (t ∷ tokens)) then join (take n (t ∷ tokens)) ∷ rest else []

-- The first category with a keyword in the text.
unfoldable pub exact_in : Text → Keywords → Option Text
unfolding any contains
exact_in d [] = none
exact_in d ((category, keywords) ∷ rest) =
    if any (λ k. contains k d) keywords then some category else exact_in d rest

-- `try_exact_keyword_category`
unfoldable pub try_exact_keyword_category : Text → Option Text
unfolding exact_in lower category_keywords
try_exact_keyword_category desc = exact_in (lower desc) (keyword_texts category_keywords)

-- A score `num / den`; a negative score, which never counts, is 0.
pub record FuzzyScore : Type 0 where
  pub num : ℕ
  pub den : ℕ

abbrev pub zero_score : FuzzyScore
zero_score = record { num = 0; den = 1 }

abbrev pub less : FuzzyScore → FuzzyScore → Bool
less a b = ltb (a.num * b.den) (b.num * a.den)

-- `{t[:3] for t in tokens if len(t) >= 3}`
unfoldable pub prefixes : List Text → List Text
prefixes [] = []
prefixes (t ∷ tokens) =
    let rest = prefixes tokens in if leb 3 (length t) then take 3 t ∷ rest else rest

unfoldable pub meets : List Text → List Text → Bool
unfolding any
meets xs ys = any (λ x. any (λ y. x ==ₜ y) ys) xs

unfoldable pub has_affinity : Text → Text → Bool
unfolding split prefixes meets contains
has_affinity cand kw =
    meets (prefixes (split cand)) (prefixes (split kw))
    || meets (split cand) (split kw)
    || contains cand kw
    || contains kw cand

abbrev pub first_differs : Text → Text → Bool
first_differs (a ∷ _) (b ∷ _) = not (a == b)
first_differs _ _ = false

-- Both are single words that begin differently.
unfoldable pub is_skipped : Text → Text → Bool
unfolding split
is_skipped cand kw = length (split cand) == 1 && length (split kw) == 1 && first_differs cand kw

-- The ratio, less 0.18 without affinity; 0 where the pair is skipped.
unfoldable pub fuzzy_score : Text → Text → FuzzyScore
unfolding ratio has_affinity is_skipped
fuzzy_score cand kw =
    let r = ratio cand kw in
    if is_skipped cand kw
    then zero_score
    else if has_affinity cand kw
    then record { num = r.twice_matches; den = r.total_length }
    else record { num = 100 * r.twice_matches - 18 * r.total_length; den = 100 * r.total_length }

abbrev pub better : FuzzyScore → FuzzyScore → FuzzyScore
better best new = if less best new then new else best

unfoldable pub best_of_candidates : List Text → Text → FuzzyScore → FuzzyScore
unfolding fuzzy_score
best_of_candidates [] kw best = best
best_of_candidates (c ∷ cands) kw best =
    best_of_candidates cands kw (better best (fuzzy_score c kw))

unfoldable pub best_of_keywords : List Text → List Text → FuzzyScore → FuzzyScore
unfolding best_of_candidates normalize_for_match
best_of_keywords cands [] best = best
best_of_keywords cands (k ∷ keywords) best =
    best_of_keywords cands keywords (best_of_candidates cands (normalize_for_match k) best)

-- The first and the second entry of `ranked`, as far as `categories` has been read.
pub record Ranked : Type 0 where
  pub best_category : Text
  pub best_score : FuzzyScore
  pub second_best_score : FuzzyScore

abbrev pub rank_next : Ranked → Text → FuzzyScore → Ranked
rank_next r category s =
    if less r.best_score s
    then record { best_category = category; best_score = s; second_best_score = r.best_score }
    else record r { second_best_score = better r.second_best_score s }

unfoldable pub rank_categories : List Text → Keywords → Ranked → Ranked
unfolding best_of_keywords
rank_categories cands [] r = r
rank_categories cands ((category, keywords) ∷ rest) r =
    rank_categories cands rest (rank_next r category (best_of_keywords cands keywords zero_score))

-- `best_score >= 0.75` and `best_score - second_best_score >= 0.08`
unfoldable pub is_clear : Ranked → Bool
is_clear r =
    let b = r.best_score in
    let s = r.second_best_score in
    leb (75 * b.den) (100 * b.num)
    && leb (8 * (b.den * s.den) + 100 * (s.num * b.den)) (100 * (b.num * s.den))

-- The words of a description, its phrases of two and three words, and all of it.
unfoldable pub candidates_of : Text → List Text
unfolding split phrase_ngrams distinct
candidates_of normalized =
    let tokens = split normalized in
    distinct ◌==ₜ◌ (tokens ++ phrase_ngrams tokens 2 ++ phrase_ngrams tokens 3 ++ normalized ∷ [])

unfoldable pub fuzzy_in : Text → Keywords → Option Text
unfolding candidates_of rank_categories best_of_keywords is_clear
fuzzy_in normalized [] = none
fuzzy_in normalized ((category, keywords) ∷ rest) =
    let cands = candidates_of normalized in
    let start : Ranked = record {
      best_category = category;
      best_score = best_of_keywords cands keywords zero_score;
      second_best_score = zero_score;
    } in
    let r = rank_categories cands rest start in if is_clear r then some r.best_category else none

-- `try_fuzzy_keyword_category`
unfoldable pub try_fuzzy_keyword_category : Text → Option Text
unfolding fuzzy_in normalize_for_match category_keywords
try_fuzzy_keyword_category desc =
    let normalized = normalize_for_match desc in
    if truthy normalized then fuzzy_in normalized (keyword_texts category_keywords) else none

-- How a deterministic category was found.
pub data DeterministicSource : Type 0 where
  verified_cache exact mapping_rule fuzzy default : DeterministicSource

abbrev pub Decided : Type 0
Decided = Text × DeterministicSource

-- The category where it is in the order, or what follows.
abbrev pub when_valid : Option Text → DeterministicSource → Decided → Decided
when_valid none source rest = rest
when_valid (some name) source rest = if is_valid name then (name, source) else rest

abbrev pub when_found : Option Text → DeterministicSource → Decided → Decided
when_found none source rest = rest
when_found (some name) source rest = if truthy name then (name, source) else rest

-- The three product texts that are tested before the rules.
unfoldable pub product_rule : Text → Option Text
unfolding contains
product_rule d =
    if contains (codes "protein bar") d || contains (codes "protein bars") d
    then some (codes "Groceries")
    else if contains (codes "enviro fee") d
    then some (codes "Groceries")
    else if contains (codes "crest") d
    then some (codes "Indoor Supplies")
    else none

-- `deterministic_category`
unfoldable pub deterministic_category :
    List CategoryRule → Text → Option Text → Option Text → Decided
unfolding get is_valid product_rule match_runtime_category_rule try_exact_keyword_category
    try_fuzzy_keyword_category normalize_for_match lower verified_category_overrides
deterministic_category rules desc source merchant =
    when_valid (get (normalize_for_match desc) (text_pairs verified_category_overrides))
      verified_cache
      (when_found (product_rule (lower desc)) exact (
        when_valid (match_runtime_category_rule rules desc source merchant) mapping_rule (
          when_found (try_exact_keyword_category desc) exact (
            when_found (try_fuzzy_keyword_category desc) fuzzy (codes default_category, default)))))
