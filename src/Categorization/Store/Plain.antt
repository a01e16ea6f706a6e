-- ===== src/Categorization/Store/Plain.antt =====
-- The rows that approvals without a source and a merchant leave.
use home_budget_pipeline.Prelude.{◌≡◌, refl, ◌≢◌, true, none, List, [], ◌∷◌, ap, ◌∙◌, All, select}
use home_budget_pipeline.Prelude.Text.{Text, truthy, lower, trim}
use home_budget_pipeline.Prelude.Words.{normalize_for_match}
use home_budget_pipeline.Categorization.Pipeline.{manual, CatalogEntry}
use home_budget_pipeline.Categorization.Store.{
  MappingRow, MappingStore, exact_match, is_loaded, insert_row, by_priority, load_rows,
  load_approved_mappings,
}

-- A row that an approval without a source and a merchant leaves.
pub record IsPlainRow (r : MappingRow) : Type 0 where
  pub source_none : r.source ≡ none
  pub merchant_none : r.merchant ≡ none
  pub type_exact : r.match_type ≡ exact_match
  pub priority_ten : r.priority ≡ 10
  pub active : r.is_active ≡ true
  pub approved : r.is_approved ≡ true
  pub by_hand : r.provenance ≡ manual
  pub normal : normalize_for_match r.match_text ≡ r.match_text
  pub trimmed : lower (trim r.match_text) ≡ r.match_text
  pub not_empty : truthy r.match_text ≡ true

-- No row has the text n.
abbrev pub IsFree : Text → List MappingRow → Type 0
IsFree n rows = All (λ r. r.match_text ≢ n) rows

abbrev pub IsDistinct : List MappingRow → Type 0
IsDistinct [] = Unit
IsDistinct (r ∷ rows) = IsFree r.match_text rows × IsDistinct rows

-- Every row of the table is plain, and their texts differ.
abbrev pub IsPlain : MappingStore → Type 0
IsPlain store = All IsPlainRow store.rows × IsDistinct store.rows

loaded-plain : (r : MappingRow) → IsPlainRow r → is_loaded r ≡ true
loaded-plain r h = rw h.active (rw h.approved (rw h.by_hand (rw h.type_exact refl)))

select-plain : (rows : List MappingRow) → All IsPlainRow rows → select is_loaded rows ≡ rows
unfolding select
select-plain [] h = refl
select-plain (r ∷ rows) h = rw (loaded-plain r h.0) (ap (λ rs. r ∷ rs) (select-plain rows h.1))

insert-plain :
    (r : MappingRow) (rows : List MappingRow)
    → IsPlainRow r
    → All IsPlainRow rows
    → insert_row r rows ≡ r ∷ rows
unfolding insert_row
insert-plain r [] p h = refl
insert-plain r (q ∷ rows) p h = rw p.priority_ten (rw h.0.priority_ten refl)

order-plain : (rows : List MappingRow) → All IsPlainRow rows → by_priority rows ≡ rows
unfolding by_priority
order-plain [] h = refl
order-plain (r ∷ rows) h = ap (insert_row r) (order-plain rows h.1) ∙ insert-plain r rows h.0 h.1

-- All of a plain table is loaded, in the order of its rows.
pub load-plain :
    (catalog : List CatalogEntry) (store : MappingStore)
    → All IsPlainRow store.rows
    → load_approved_mappings catalog store ≡ load_rows catalog store.rows []
unfolding load_approved_mappings
load-plain catalog store h =
    ap (λ rows. load_rows catalog rows [])
      (ap by_priority (select-plain store.rows h) ∙ order-plain store.rows h)
