-- ===== src/Categorization/Store/Refines.antt =====
-- The table of mappings that were approved without a scope is the dictionary of the pipeline.
use home_budget_pipeline.Prelude.{
  ◌≡◌, refl, true, Option, none, some, List, [], sym, ap, ◌∙◌, if◌then◌else◌, All,
}
use home_budget_pipeline.Prelude.Text.{Text, truthy, ◌==ₜ◌, lower}
use home_budget_pipeline.Prelude.Words.{normalize_for_match}
use home_budget_pipeline.Prelude.Normal.{normalize-again}
use home_budget_pipeline.Prelude.Result.{returns}
use home_budget_pipeline.Categorization.Logic.{get}
use home_budget_pipeline.Categorization.Pipeline.{
  CatalogEntry, resolved_category, CategoryMappingPipeline, CategoryDecision,
}
use home_budget_pipeline.Categorization.Store.{
  MappingStore, load_approved_mappings, upsert_row, approved_row, store_row, save_approved_mapping,
  approve_and_save, learned,
}
use home_budget_pipeline.Categorization.Store.Plain.{IsPlainRow, IsPlain, load-plain}
use home_budget_pipeline.Categorization.Pipeline.Decide.{resolved-listed}
use home_budget_pipeline.Categorization.Pipeline.Learned.{IsConsistent}
use home_budget_pipeline.Categorization.Store.Upsert.{
  IsMapping, IsWith-upsert, IsPlainRow-upsert, IsDistinct-upsert,
}

-- What the store loads under a text is what the pipeline has learned under it.
abbrev pub Agrees : List CatalogEntry → CategoryMappingPipeline → MappingStore → Type 0
Agrees catalog p store =
    (k : Text) → get k p.learned_mappings ≡ get k (load_approved_mappings catalog store)

Agrees-stored :
    (catalog : List CatalogEntry) (p : CategoryMappingPipeline) (store : MappingStore) (n c : Text)
    (notes : Option Text)
    → IsMapping catalog n c
    → IsPlain store
    → Agrees catalog p store
    → let saved = store_row store (approved_row store.next_id n c none none notes) in
      Agrees catalog (learned p n c).1 saved × IsPlain saved
unfolding get
Agrees-stored catalog p store n c notes m plain agrees =
    let new = approved_row store.next_id n c none none notes in
    let kept : All IsPlainRow (upsert_row new store.rows) =
      IsPlainRow-upsert catalog store.next_id n c notes store.rows m plain.0 in
    (
      λ k.
          ap (λ o. if n ==ₜ k then some c else o)
            (agrees k ∙ ap (get k) (load-plain catalog store plain.0))
          ∙ (sym (IsWith-upsert catalog store.next_id n c notes store.rows [] m plain.0 plain.1 k)
              ∙ sym (ap (get k) (load-plain catalog (store_row store new) kept))),
      (kept, IsDistinct-upsert store.next_id n c notes store.rows m.trimmed plain.0 plain.1),
    )

saves :
    (catalog : List CatalogEntry) (p : CategoryMappingPipeline) (store : MappingStore)
    (description category c : Text) (notes : Option Text)
    → truthy (normalize_for_match description) ≡ true
    → resolved_category catalog (some category) ≡ some c
    → resolved_category catalog (some c) ≡ some c
    → approve_and_save catalog p store description category none none notes
      ≡ returns (
        learned p (normalize_for_match description) c,
        store_row store
            (approved_row store.next_id (normalize_for_match description) c none none notes),
      )
unfolding approve_and_save save_approved_mapping
saves catalog p store description category c notes full found valid =
    rw full (rw found (rw full (rw valid refl)))

-- Where the catalogue names each of its categories by itself, the table has only rows that were
-- approved without a source and a merchant, and the table loads for every text what the pipeline
-- has learned: an approval without a source and a merchant, of a description that is not empty and
-- a category of the catalogue, returns the category, and all of this holds after it.
pub approval_refines :
    (catalog : List CatalogEntry) (p : CategoryMappingPipeline) (store : MappingStore)
    (description category c : Text) (notes : Option Text)
    → IsConsistent catalog
    → IsPlain store
    → Agrees catalog p store
    → truthy (normalize_for_match description) ≡ true
    → resolved_category catalog (some category) ≡ some c
    → (d : CategoryDecision) × (p' : CategoryMappingPipeline) × (store' : MappingStore)
      × (approve_and_save catalog p store description category none none notes
          ≡ returns ((d, p'), store'))
      × (d.category ≡ some c)
      × IsPlain store'
      × Agrees catalog p' store'
approval_refines catalog p store description category c notes consistent plain agrees full found =
    let valid : resolved_category catalog (some c) ≡ some c =
      consistent c (resolved-listed catalog (some category) c found) in
    let (again, low, trimmed) = normalize-again description in
    let m : IsMapping catalog (normalize_for_match description) c = record {
      normal = again;
      trimmed = ap lower trimmed ∙ low;
      not_empty = full;
      valid = valid;
    } in
    let (agrees', plain') =
      Agrees-stored catalog p store (normalize_for_match description) c notes m plain agrees in
    (
      (learned p (normalize_for_match description) c).0,
      (learned p (normalize_for_match description) c).1,
      store_row store
          (approved_row store.next_id (normalize_for_match description) c none none notes),
      saves catalog p store description category c notes full found valid,
      refl,
      plain',
      agrees',
    )
