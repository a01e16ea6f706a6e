-- ===== src/Categorization/Store.antt =====
-- categorization/store.py: the table of approved mappings, and `approve_mapping` of pipeline.py with
-- the store that it saves to.
pub mod Keys
pub mod Plain
mod Upsert
pub mod Refines
mod Examples
use home_budget_pipeline.Prelude.{
  ℕ, suc, Bool, true, false, ◌&&◌, Option, none, some, List, [], ◌∷◌, select, leb, if◌then◌else◌,
}
use home_budget_pipeline.Prelude.Text.{Text, lower, trim, truthy, ◌==ₜ◌}
use home_budget_pipeline.Prelude.Words.{normalize_for_match}
use home_budget_pipeline.Prelude.Result.{Result, raises, returns, ◌>>=◌, ◌>>◌, require}
use home_budget_pipeline.Categorization.Pipeline.{
  CategoryProvenance, manual, learned_mapping, CatalogEntry, resolved_category, put,
  CategoryMappingPipeline, CategoryDecision, decision, ApprovalError, empty_description,
  invalid_category,
}

pub data MatchType : Type 0 where
  exact_match contains_match : MatchType

-- A row of `budget.expense_category_mappings`.
pub record MappingRow : Type 0 where
  pub id : ℕ
  pub source : Option Text
  pub merchant : Option Text
  pub match_type : MatchType
  pub match_text : Text
  pub category_name : Text
  pub priority : ℕ
  pub is_active : Bool
  pub provenance : CategoryProvenance
  pub is_approved : Bool
  pub notes : Option Text

-- The rows in the order of their ids, and the next value of the sequence.
pub record MappingStore : Type 0 where
  pub rows : List MappingRow
  pub next_id : ℕ

abbrev pub is_exact : MatchType → Bool
is_exact exact_match = true
is_exact contains_match = false

abbrev pub by_person : CategoryProvenance → Bool
by_person manual = true
by_person learned_mapping = true
by_person _ = false

-- The condition of the query.
abbrev pub is_loaded : MappingRow → Bool
is_loaded r = r.is_active && r.is_approved && by_person r.provenance && is_exact r.match_type

-- `ORDER BY priority, id`, of rows in the order of their ids.
unfoldable pub insert_row : MappingRow → List MappingRow → List MappingRow
insert_row r [] = r ∷ []
insert_row r (q ∷ rows) = if leb r.priority q.priority then r ∷ q ∷ rows else q ∷ insert_row r rows

unfoldable pub by_priority : List MappingRow → List MappingRow
unfolding insert_row
by_priority [] = []
by_priority (r ∷ rows) = insert_row r (by_priority rows)

-- `mappings[normalized] = category`, where both are acceptable.
abbrev pub put_valid : Text → Option Text → List (Text × Text) → List (Text × Text)
put_valid key none d = d
put_valid key (some category) d = if truthy key then put key category d else d

unfoldable pub load_rows :
    List CatalogEntry → List MappingRow → List (Text × Text) → List (Text × Text)
unfolding normalize_for_match resolved_category put
load_rows catalog [] d = d
load_rows catalog (r ∷ rows) d = load_rows catalog rows (
    put_valid (normalize_for_match r.match_text) (resolved_category catalog (some r.category_name))
      d)

unfoldable pub load_approved_mappings : List CatalogEntry → MappingStore → List (Text × Text)
unfolding select by_priority load_rows
load_approved_mappings catalog store =
    load_rows catalog (by_priority (select is_loaded store.rows)) []

-- `COALESCE(lower(trim(s)), '')`
unfoldable pub scope_key : Option Text → Text
unfolding lower trim
scope_key none = []
scope_key (some s) = lower (trim s)

unfoldable pub same_type : MatchType → MatchType → Bool
same_type exact_match exact_match = true
same_type contains_match contains_match = true
same_type _ _ = false

-- The unique index.
unfoldable pub conflicts : MappingRow → MappingRow → Bool
unfolding scope_key same_type lower trim
conflicts new r =
    scope_key new.source ==ₜ scope_key r.source
    && scope_key new.merchant ==ₜ scope_key r.merchant
    && same_type new.match_type r.match_type
    && lower (trim new.match_text) ==ₜ lower (trim r.match_text)

abbrev pub coalesce : Option Text → Option Text → Option Text
coalesce none old = old
coalesce (some s) old = some s

-- `DO UPDATE SET …`
abbrev pub updated_row : MappingRow → MappingRow → MappingRow
updated_row new r = record r {
  category_name = new.category_name;
  priority = new.priority;
  is_active = true;
  provenance = manual;
  is_approved = true;
  notes = coalesce new.notes r.notes;
}

unfoldable pub upsert_row : MappingRow → List MappingRow → List MappingRow
unfolding conflicts
upsert_row new [] = new ∷ []
upsert_row new (r ∷ rows) =
    if conflicts new r then updated_row new r ∷ rows else r ∷ upsert_row new rows

-- `VALUES (…)`
abbrev pub approved_row : ℕ → Text → Text → Option Text → Option Text → Option Text → MappingRow
approved_row id normalized canonical source merchant notes = record {
  id = id;
  source = source;
  merchant = merchant;
  match_type = exact_match;
  match_text = normalized;
  category_name = canonical;
  priority = 10;
  is_active = true;
  provenance = manual;
  is_approved = true;
  notes = notes;
}

abbrev pub store_row : MappingStore → MappingRow → MappingStore
store_row store new = record { rows = upsert_row new store.rows; next_id = suc store.next_id }

abbrev save_canonical :
    MappingStore
    → Text
    → Option Text
    → Option Text
    → Option Text
    → Option Text
    → Result ApprovalError MappingStore
save_canonical store normalized none source merchant notes = raises invalid_category
save_canonical store normalized (some canonical) source merchant notes =
    returns
      (store_row store (approved_row store.next_id normalized canonical source merchant notes))

unfoldable pub save_approved_mapping :
    List CatalogEntry
    → MappingStore
    → Text
    → Text
    → Option Text
    → Option Text
    → Option Text
    → Result ApprovalError MappingStore
unfolding normalize_for_match resolved_category upsert_row
save_approved_mapping catalog store description category source merchant notes = do
  require (truthy (normalize_for_match description)) empty_description
  save_canonical store (normalize_for_match description) (resolved_category catalog (some category))
      source merchant notes

abbrev pub learned :
    CategoryMappingPipeline → Text → Text → CategoryDecision × CategoryMappingPipeline
learned p normalized canonical = (
  decision canonical manual 100 "human-approved category mapping",
  record p { learned_mappings = (normalized, canonical) ∷ p.learned_mappings },
)

abbrev save_and_learn :
    List CatalogEntry
    → CategoryMappingPipeline
    → MappingStore
    → Text
    → Option Text
    → Option Text
    → Option Text
    → Option Text
    → Result ApprovalError ((CategoryDecision × CategoryMappingPipeline) × MappingStore)
save_and_learn catalog p store description none source merchant notes = raises invalid_category
save_and_learn catalog p store description (some canonical) source merchant notes = do
  saved ← save_approved_mapping catalog store description canonical source merchant notes
  returns (learned p (normalize_for_match description) canonical, saved)

-- `approve_mapping` of a pipeline with a mapping store.
unfoldable pub approve_and_save :
    List CatalogEntry
    → CategoryMappingPipeline
    → MappingStore
    → Text
    → Text
    → Option Text
    → Option Text
    → Option Text
    → Result ApprovalError ((CategoryDecision × CategoryMappingPipeline) × MappingStore)
unfolding normalize_for_match resolved_category save_approved_mapping
approve_and_save catalog p store description category source merchant notes = do
  require (truthy (normalize_for_match description)) empty_description
  save_and_learn catalog p store description (resolved_category catalog (some category)) source
      merchant notes
