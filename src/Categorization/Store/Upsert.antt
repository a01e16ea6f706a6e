-- ===== src/Categorization/Store/Upsert.antt =====
-- What an upsert changes of a table whose rows have no source and no merchant.
use home_budget_pipeline.Prelude.{
  ℕ, ◌≡◌, refl, ◌≢◌, inl, inr, Bool, true, false, Option, none, some, List, [], ◌∷◌, Bool-cases,
  sym, subst, ◌∙◌, if◌then◌else◌, All,
}
use home_budget_pipeline.Prelude.Text.{Text, truthy, ◌==ₜ◌, text_eq, lower, trim}
use home_budget_pipeline.Prelude.Words.{normalize_for_match}
use home_budget_pipeline.Categorization.Pipeline.{put, CatalogEntry, resolved_category}
use home_budget_pipeline.Categorization.Store.{
  MappingRow, put_valid, load_rows, scope_key, same_type, conflicts, updated_row, upsert_row,
  approved_row,
}
use home_budget_pipeline.Categorization.Store.Keys.{
  IsWith, get-put, IsWith-put, IsWith-again, not_same,
}
use home_budget_pipeline.Categorization.Store.Plain.{IsPlainRow, IsFree, IsDistinct}

IsWith-put_valid :
    (n c m : Text) (o : Option Text) (e d : List (Text × Text))
    → m ≢ n
    → IsWith n c e d
    → IsWith n c (put_valid m o e) (put_valid m o d)
IsWith-put_valid n c m none e d differs h = h
IsWith-put_valid n c m (some v) e d differs h = elim (Bool-cases (truthy m)) [
  | inl t ↦ rw t (IsWith-put n c m v e d differs h)
  | inr t ↦ rw t h
]

IsWith-replaced :
    (n c : Text) (o : Option Text) (d : List (Text × Text))
    → IsWith n c (put n c d) (put_valid n o d)
IsWith-replaced n c none d = get-put n c d
IsWith-replaced n c (some v) d = elim (Bool-cases (truthy n)) [
  | inl t ↦ rw t (IsWith-again n c v d)
  | inr t ↦ rw t (get-put n c d)
]

IsWith-load_rows :
    (catalog : List CatalogEntry) (n c : Text) (rows : List MappingRow) (e d : List (Text × Text))
    → All IsPlainRow rows
    → IsFree n rows
    → IsWith n c e d
    → IsWith n c (load_rows catalog rows e) (load_rows catalog rows d)
unfolding load_rows
IsWith-load_rows catalog n c [] e d plain free h = h
IsWith-load_rows catalog n c (r ∷ rows) e d plain free h =
    IsWith-load_rows catalog n c rows _ _ plain.1 free.1 (
      IsWith-put_valid n c (normalize_for_match r.match_text)
        (resolved_category catalog (some r.category_name)) e d
        (subst (λ m. m ≢ n) (sym plain.0.normal) free.0) h)

conflicts-plain :
    (id : ℕ) (n c : Text) (notes : Option Text) (r : MappingRow)
    → lower (trim n) ≡ n
    → IsPlainRow r
    → conflicts (approved_row id n c none none notes) r ≡ (n ==ₜ r.match_text)
unfolding conflicts scope_key same_type
conflicts-plain id n c notes r h plain =
    rw plain.source_none
      (rw plain.merchant_none (rw plain.type_exact (rw h (rw plain.trimmed refl))))

-- A category of the catalogue under a normal text.
pub record IsMapping (catalog : List CatalogEntry) (n c : Text) : Type 0 where
  pub normal : normalize_for_match n ≡ n
  pub trimmed : lower (trim n) ≡ n
  pub not_empty : truthy n ≡ true
  pub valid : resolved_category catalog (some c) ≡ some c

put_valid-mapping :
    (catalog : List CatalogEntry) (n c : Text) (d : List (Text × Text))
    → IsMapping catalog n c
    → put_valid (normalize_for_match n) (resolved_category catalog (some c)) d ≡ put n c d
put_valid-mapping catalog n c d h = rw h.normal (rw h.valid (rw h.not_empty refl))

IsWith-updated :
    (catalog : List CatalogEntry) (id : ℕ) (n c : Text) (notes : Option Text) (r : MappingRow)
    (rows : List MappingRow) (d : List (Text × Text))
    → IsMapping catalog n c
    → All IsPlainRow (r ∷ rows)
    → IsFree n rows
    → r.match_text ≡ n
    → IsWith n c
        (load_rows catalog (updated_row (approved_row id n c none none notes) r ∷ rows) d)
        (load_rows catalog (r ∷ rows) d)
unfolding load_rows
IsWith-updated catalog id n c notes r rows d m plain free same =
    let key : normalize_for_match r.match_text ≡ n = plain.0.normal ∙ same in
    IsWith-load_rows catalog n c rows _ _ plain.1 free (
      rw key (
        rw m.valid (
          rw m.not_empty
            (IsWith-replaced n c (resolved_category catalog (some r.category_name)) d))))

-- After the upsert, the text n has the category c, and every other text what it had.
pub IsWith-upsert :
    (catalog : List CatalogEntry) (id : ℕ) (n c : Text) (notes : Option Text)
    (rows : List MappingRow) (d : List (Text × Text))
    → IsMapping catalog n c
    → All IsPlainRow rows
    → IsDistinct rows
    → IsWith n c
        (load_rows catalog (upsert_row (approved_row id n c none none notes) rows) d)
        (load_rows catalog rows d)
unfolding load_rows upsert_row
IsWith-upsert catalog id n c notes [] d m plain distinct =
    subst (λ e. IsWith n c e d) (sym (put_valid-mapping catalog n c d m)) (get-put n c d)
IsWith-upsert catalog id n c notes (r ∷ rows) d m plain distinct =
    elim (Bool-cases (n ==ₜ r.match_text)) [
      | inl e ↦
          let same : r.match_text ≡ n = sym (text_eq n r.match_text e) in
          rw (conflicts-plain id n c notes r m.trimmed plain.0) (
            rw e (
              IsWith-updated catalog id n c notes r rows d m plain
                (subst (λ t. IsFree t rows) same distinct.0) same))
      | inr e ↦
          rw (conflicts-plain id n c notes r m.trimmed plain.0)
            (rw e (IsWith-upsert catalog id n c notes rows _ m plain.1 distinct.1))
    ]

pub IsPlainRow-upsert :
    (catalog : List CatalogEntry) (id : ℕ) (n c : Text) (notes : Option Text)
    (rows : List MappingRow)
    → IsMapping catalog n c
    → All IsPlainRow rows
    → All IsPlainRow (upsert_row (approved_row id n c none none notes) rows)
unfolding upsert_row
IsPlainRow-upsert catalog id n c notes [] m plain = (
  record {
    source_none = refl;
    merchant_none = refl;
    type_exact = refl;
    priority_ten = refl;
    active = refl;
    approved = refl;
    by_hand = refl;
    normal = m.normal;
    trimmed = m.trimmed;
    not_empty = m.not_empty;
  },
  tt,
)
IsPlainRow-upsert catalog id n c notes (r ∷ rows) m plain =
    let p = plain.0 in
    All-if (conflicts (approved_row id n c none none notes) r) _ _
      (
        record {
          source_none = p.source_none;
          merchant_none = p.merchant_none;
          type_exact = p.type_exact;
          priority_ten = refl;
          active = refl;
          approved = refl;
          by_hand = refl;
          normal = p.normal;
          trimmed = p.trimmed;
          not_empty = p.not_empty;
        },
        plain.1,
      )
      (p, IsPlainRow-upsert catalog id n c notes rows m plain.1)
  where
    All-if :
        (test : Bool) (here there : List MappingRow)
        → All IsPlainRow here
        → All IsPlainRow there
        → All IsPlainRow (if test then here else there)
    All-if true here there h k = h
    All-if false here there h k = k

IsFree-if :
    (k : Text) (test : Bool) (here there : List MappingRow)
    → IsFree k here
    → IsFree k there
    → IsFree k (if test then here else there)
IsFree-if k true here there h g = h
IsFree-if k false here there h g = g

IsFree-upsert :
    (k : Text) (id : ℕ) (n c : Text) (notes : Option Text) (rows : List MappingRow)
    → n ≢ k
    → IsFree k rows
    → IsFree k (upsert_row (approved_row id n c none none notes) rows)
unfolding upsert_row
IsFree-upsert k id n c notes [] differs free = (differs, tt)
IsFree-upsert k id n c notes (r ∷ rows) differs free =
    IsFree-if k (conflicts (approved_row id n c none none notes) r) _ _ free
      (free.0, IsFree-upsert k id n c notes rows differs free.1)

pub IsDistinct-upsert :
    (id : ℕ) (n c : Text) (notes : Option Text) (rows : List MappingRow)
    → lower (trim n) ≡ n
    → All IsPlainRow rows
    → IsDistinct rows
    → IsDistinct (upsert_row (approved_row id n c none none notes) rows)
unfolding upsert_row
IsDistinct-upsert id n c notes [] h plain distinct = (tt, tt)
IsDistinct-upsert id n c notes (r ∷ rows) h plain distinct =
    elim (Bool-cases (n ==ₜ r.match_text)) [
      | inl e ↦ rw (conflicts-plain id n c notes r h plain.0) (rw e distinct)
      | inr e ↦ rw (conflicts-plain id n c notes r h plain.0) (
          rw e (
            IsFree-upsert r.match_text id n c notes rows (not_same n r.match_text e) distinct.0,
            IsDistinct-upsert id n c notes rows h plain.1 distinct.1,
          ))
    ]
