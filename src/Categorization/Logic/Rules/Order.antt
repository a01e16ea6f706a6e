-- ===== src/Categorization/Logic/Rules/Order.antt =====
-- Which runtime rule a description matches.
use mathlib.Core.List.{Mem}
use home_budget_pipeline.Prelude.{
  ◌≡◌, refl, inl, inr, Bool, true, false, Option, none, some, List, [], ◌∷◌, All, arith, Bool-cases,
  if◌then◌else◌, All-of_mem,
}
use home_budget_pipeline.Prelude.Int.{ltb_ℤ, ◌≤ℤ◌}
use home_budget_pipeline.Prelude.Text.{Text, truthy}
use home_budget_pipeline.Prelude.Words.{normalize_for_match}
use home_budget_pipeline.Categorization.Logic.{
  RuleInput, CategoryRule, MatchType, normalize_rules, normalize_rule, is_valid, rule_with,
  keep_rule, canonicalize_category, match_type_of,
}
use home_budget_pipeline.Categorization.Logic.Rules.{
  insert_rule, sort_rules, set_runtime_category_rules, rule_fits, first_fit, scope_of, category_of,
  match_runtime_category_rule,
}

-- No later rule has a lower priority number.
abbrev pub IsOrdered : List CategoryRule → Type 0
IsOrdered [] = Unit
IsOrdered (r ∷ rest) = All (λ (s : CategoryRule). r.priority ≤ℤ s.priority) rest × IsOrdered rest

All-insert {κ} :
    (P : CategoryRule → Type κ) (r : CategoryRule) (rest : List CategoryRule)
    → P r
    → All P rest
    → All P (insert_rule r rest)
unfolding insert_rule
All-insert P r [] h k = (h, tt)
All-insert P r (s ∷ rest) h k = elim (Bool-cases (ltb_ℤ s.priority r.priority)) [
  | inl e ↦ rw e (k.0, All-insert P r rest h k.1)
  | inr e ↦ rw e (h, k)
]

below_trans :
    (r s : CategoryRule) (rest : List CategoryRule)
    → r.priority ≤ℤ s.priority
    → All (λ (t : CategoryRule). s.priority ≤ℤ t.priority) rest
    → All (λ (t : CategoryRule). r.priority ≤ℤ t.priority) rest
below_trans r s [] h k = tt
below_trans r s (t ∷ rest) h k = (omega arith, below_trans r s rest h k.1)

insert_rule-IsOrdered :
    (r : CategoryRule) (rest : List CategoryRule) → IsOrdered rest → IsOrdered (insert_rule r rest)
unfolding insert_rule
insert_rule-IsOrdered r [] h = (tt, tt)
insert_rule-IsOrdered r (s ∷ rest) h = elim (Bool-cases (ltb_ℤ s.priority r.priority)) [
  | inl e ↦ rw e (
    All-insert (λ (t : CategoryRule). s.priority ≤ℤ t.priority) r rest (ground arith) h.0,
    insert_rule-IsOrdered r rest h.1,
  )
  | inr e ↦ rw e ((ground arith, below_trans r s rest (ground arith) h.0), h)
]

sort_rules-IsOrdered : (rules : List CategoryRule) → IsOrdered (sort_rules rules)
unfolding sort_rules
sort_rules-IsOrdered [] = tt
sort_rules-IsOrdered (r ∷ rest) =
    insert_rule-IsOrdered r (sort_rules rest) (sort_rules-IsOrdered rest)

All-sort_rules {κ} :
    (P : CategoryRule → Type κ) (rules : List CategoryRule) → All P rules → All P (sort_rules rules)
unfolding sort_rules
All-sort_rules P [] h = tt
All-sort_rules P (r ∷ rest) h = All-insert P r (sort_rules rest) h.0 (All-sort_rules P rest h.1)

-- A rule that is kept has a listed category and a text.
abbrev pub IsUsable : CategoryRule → Type 0
IsUsable r = (is_valid r.category_name ≡ true) × (truthy r.match_text_norm ≡ true)

rule_with-IsUsable :
    (raw : RuleInput) (o : Option Text) (kind : Option MatchType) (r : CategoryRule)
    → rule_with raw o kind ≡ some r
    → IsUsable r
rule_with-IsUsable raw none kind r h = cc
rule_with-IsUsable raw (some name) none r h = cc
rule_with-IsUsable raw (some name) (some kind) r h = ground arith

keep-IsUsable :
    (o : Option CategoryRule) (rest : List CategoryRule)
    → ((r : CategoryRule) → o ≡ some r → IsUsable r)
    → All IsUsable rest
    → All IsUsable (keep_rule o rest)
keep-IsUsable none rest h k = k
keep-IsUsable (some r) rest h k = (h r refl, k)

normalize_rules-IsUsable : (rules : List RuleInput) → All IsUsable (normalize_rules rules)
unfolding normalize_rules normalize_rule
normalize_rules-IsUsable [] = tt
normalize_rules-IsUsable (raw ∷ rest) =
    keep-IsUsable (normalize_rule raw) (normalize_rules rest)
      (rule_with-IsUsable raw (canonicalize_category (some raw.category_name))
        (match_type_of raw.match_type))
      (normalize_rules-IsUsable rest)

-- The rule is one of the rules and fits, and no fitting one of them has a lower priority number.
abbrev pub IsFirst : (CategoryRule → Bool) → List CategoryRule → CategoryRule → Type 0
IsFirst fits rules r =
    Mem r rules
    × (fits r ≡ true)
    × All (λ (s : CategoryRule). fits s ≡ true → r.priority ≤ℤ s.priority) rules
    × IsUsable r

inserted_later {κ} :
    (P : CategoryRule → Type κ) (r s : CategoryRule) (rest : List CategoryRule) (b : Bool)
    → b ≡ true
    → All P (if b then s ∷ insert_rule r rest else r ∷ s ∷ rest)
    → P s × All P (insert_rule r rest)
inserted_later P r s rest true e h = h
inserted_later P r s rest false e h = cc

inserted_here {κ} :
    (P : CategoryRule → Type κ) (r s : CategoryRule) (rest : List CategoryRule) (b : Bool)
    → b ≡ false
    → All P (if b then s ∷ insert_rule r rest else r ∷ s ∷ rest)
    → P r × (P s × All P rest)
inserted_here P r s rest false e h = h
inserted_here P r s rest true e h = cc

All-of_insert {κ} :
    (P : CategoryRule → Type κ) (r : CategoryRule) (rest : List CategoryRule)
    → All P (insert_rule r rest)
    → P r × All P rest
unfolding insert_rule
All-of_insert P r [] h = (h.0, tt)
All-of_insert P r (s ∷ rest) h = elim (Bool-cases (ltb_ℤ s.priority r.priority)) [
  | inl e ↦
      let k = inserted_later P r s rest _ e h in
      let (x, y) = All-of_insert P r rest k.1 in (x, (k.0, y))
  | inr e ↦ inserted_here P r s rest _ e h
]

All-of_sort_rules {κ} :
    (P : CategoryRule → Type κ) (rules : List CategoryRule) → All P (sort_rules rules) → All P rules
unfolding sort_rules
All-of_sort_rules P [] h = tt
All-of_sort_rules P (r ∷ rest) h =
    let (x, y) = All-of_insert P r (sort_rules rest) h in (x, All-of_sort_rules P rest y)

All-Mem : (rules : List CategoryRule) → All (λ r. Mem r rules) rules
All-Mem rules = All-of_mem (λ r. Mem r rules) rules (λ r m. m)

weaken :
    (fits : CategoryRule → Bool) (r : CategoryRule) (rules : List CategoryRule)
    → All (λ (s : CategoryRule). r.priority ≤ℤ s.priority) rules
    → All (λ (s : CategoryRule). fits s ≡ true → r.priority ≤ℤ s.priority) rules
weaken fits r [] h = tt
weaken fits r (s ∷ rules) h = (λ _. h.0, weaken fits r rules h.1)

first_fit-first :
    (P : CategoryRule → Type 0) (fits : CategoryRule → Bool) (rules : List CategoryRule)
    (name : Text)
    → IsOrdered rules
    → All P rules
    → category_of (first_fit fits rules) ≡ some name
    → (r : CategoryRule) × (r.category_name ≡ name)
      × P r
      × (fits r ≡ true)
      × All (λ (s : CategoryRule). fits s ≡ true → r.priority ≤ℤ s.priority) rules
unfolding first_fit
first_fit-first P fits [] name o u h = cc
first_fit-first P fits (r ∷ rest) name o u h = elim (Bool-cases (fits r)) [
  | inl e ↦ (r, ground arith, u.0, e, (λ _. omega arith, weaken fits r rest o.0))
  | inr e ↦
      let (s, n, ok, f, below) = first_fit-first P fits rest name o.1 u.1 (ground arith) in
      (s, n, ok, f, (λ k. cc, below))
]

All-pair :
    (P Q : CategoryRule → Type 0) (rules : List CategoryRule)
    → All P rules
    → All Q rules
    → All (λ r. P r × Q r) rules
All-pair P Q [] h k = tt
All-pair P Q (r ∷ rules) h k = ((h.0, k.0), All-pair P Q rules h.1 k.1)

-- A category that the runtime rules answer is a listed one, and is that of one of the given rules, in
-- its normal form, that fits the description, the source and the merchant, such that no other given
-- rule that fits has a lower priority number.
pub match_takes_lowest_priority :
    (rules : List RuleInput) (desc : Text) (source merchant : Option Text) (name : Text)
    → match_runtime_category_rule (set_runtime_category_rules rules) desc source merchant
      ≡ some name
    → (r : CategoryRule) × (r.category_name ≡ name)
      × IsFirst
          (rule_fits (normalize_for_match desc) (scope_of source) (scope_of merchant))
          (normalize_rules rules)
          r
unfolding match_runtime_category_rule set_runtime_category_rules
match_takes_lowest_priority rules desc source merchant name h =
    let kept = normalize_rules rules in
    let P : CategoryRule → Type 0 = λ r. Mem r kept × IsUsable r in
    let (r, n, (member, ok), f, below) =
      first_fit-first P _ (sort_rules kept) name (sort_rules-IsOrdered kept)
        (All-sort_rules P kept (
          All-pair (λ r. Mem r kept) IsUsable kept (All-Mem kept) (normalize_rules-IsUsable rules)))
        (ground arith) in
    (r, n, (member, f, All-of_sort_rules _ kept below, ok))
