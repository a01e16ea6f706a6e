-- ===== src/Categorization/Store/Examples.antt =====
-- Runs of approvals with a store, and an instance of the refinement.
use home_budget_pipeline.Prelude.{
  ◌≡◌, refl, true, any, none, some, List, [], ◌∷◌, select, subst, arith, inl, inr, Bool-cases,
}
use home_budget_pipeline.Prelude.Text.{
  Text, codes, text_eq, ◌==ₜ◌, lower, strip, drop_spaces, drop_trailing, is_space, trim, trim_start,
  trim_end,
}
use home_budget_pipeline.Prelude.Words.{normalize_for_match, spaced, spaced_from}
use home_budget_pipeline.Prelude.Result.{returns}
use home_budget_pipeline.Categorization.Logic.{get, listed}
use home_budget_pipeline.Categorization.Pipeline.{
  CategoryDecision, CatalogEntry, names, canonicalize, if_valid, resolved_category, entry_aliases,
  aliases_from, CategoryMappingPipeline, put,
}
use home_budget_pipeline.Categorization.Pipeline.Learned.{IsConsistent}
use home_budget_pipeline.Categorization.Store.{
  MappingStore, insert_row, by_priority, load_rows, load_approved_mappings, scope_key, same_type,
  conflicts, upsert_row, save_approved_mapping, approve_and_save,
}
use home_budget_pipeline.Categorization.Store.Plain.{IsPlain}
use home_budget_pipeline.Categorization.Store.Refines.{Agrees, approval_refines}

abbrev food : Text
food = codes "Food"

abbrev home : Text
home = codes "Home"

abbrev food_only : List CatalogEntry
food_only = record { name = food; aliases = codes "groceries" ∷ [] } ∷ []

abbrev two_categories : List CatalogEntry
two_categories = record { name = food; aliases = [] } ∷ record { name = home; aliases = [] } ∷ []

abbrev new_pipeline : CategoryMappingPipeline
new_pipeline = record { learned_mappings = []; ai_fallback = none }

abbrev new_store : MappingStore
new_store = record { rows = []; next_id = 1 }

food_resolved : resolved_category food_only (some food) ≡ some food
unfolding resolved_category canonicalize if_valid aliases_from entry_aliases listed any get
    normalize_for_match spaced spaced_from lower strip drop_spaces drop_trailing is_space
food_resolved = refl

groceries_found : resolved_category food_only (some (codes "Groceries")) ≡ some food
unfolding resolved_category canonicalize if_valid aliases_from entry_aliases listed any get
    normalize_for_match spaced spaced_from lower strip drop_spaces drop_trailing is_space
groceries_found = refl

only_food : (n : Text) → listed n (names food_only) ≡ true → (food ==ₜ n) ≡ true
unfolding listed any
only_food n h = elim (Bool-cases (food ==ₜ n)) [ inl e ↦ e | inr e ↦ ground arith ]

food_only-IsConsistent : IsConsistent food_only
food_only-IsConsistent name h =
    subst (λ n. resolved_category food_only (some n) ≡ some n)
      (text_eq food name (only_food name h)) food_resolved

abbrev run :
    List CatalogEntry
    → CategoryMappingPipeline × MappingStore
    → Text
    → Text
    → Text
    → CategoryMappingPipeline × MappingStore
unfolding approve_and_save save_approved_mapping resolved_category canonicalize if_valid
    aliases_from entry_aliases listed any get normalize_for_match spaced spaced_from lower strip
    drop_spaces drop_trailing is_space upsert_row conflicts scope_key same_type trim trim_start
    trim_end
run catalog (p, store) description category source =
    elim (approve_and_save catalog p store description category (some source) none none) [
      | returns ((d, p'), store') ↦ (p', store')
      | _ ↦ (p, store)
    ]

abbrev approvals : CategoryMappingPipeline × MappingStore
approvals =
    run two_categories
      (run two_categories
        (run two_categories (new_pipeline, new_store) (codes "Milk") food (codes "costco"))
        (codes "Milk") home (codes "walmart"))
      (codes "Milk") food (codes "costco")

-- A description that is approved under two sources, and again under the first of them: the
-- pipeline has the latest category, and the table loads the category of the other source.
last_approval_learned : get (codes "milk") approvals.0.learned_mappings ≡ some food
unfolding get run
last_approval_learned = refl

other_approval_loaded :
    get (codes "milk") (load_approved_mappings two_categories approvals.1) ≡ some home
unfolding get load_approved_mappings load_rows by_priority insert_row select put resolved_category
    canonicalize if_valid aliases_from entry_aliases listed any normalize_for_match spaced
    spaced_from lower strip drop_spaces drop_trailing is_space run
other_approval_loaded = refl

approval_refines_example :
    (d : CategoryDecision) × (p' : CategoryMappingPipeline) × (store' : MappingStore)
    × (approve_and_save food_only new_pipeline new_store
          (codes "Milk 2%")
          (codes "Groceries")
          none
          none
          none
        ≡ returns ((d, p'), store'))
    × (d.category ≡ some food)
    × IsPlain store'
    × Agrees food_only p' store'
unfolding normalize_for_match spaced spaced_from lower strip drop_spaces drop_trailing is_space get
    load_approved_mappings load_rows by_priority select
approval_refines_example =
    approval_refines food_only new_pipeline new_store (codes "Milk 2%") (codes "Groceries") food
      none food_only-IsConsistent (tt, tt) (λ k. refl) refl groceries_found
