-- ===== src/Categorization/Processing/Saved.antt =====
-- What the categorization of an expense writes.
use home_budget_pipeline.Prelude.{
  ℕ, ◌≡◌, ◌<◌, refl, sym, ap, ◌∙◌, Bool, true, false, Option, none, some, List, [], ◌∷◌, map, All,
  ◌==◌, ==_iff, is_some, if◌then◌else◌, arith, Bool-cases, inl, inr, lt→ltb,
}
use home_budget_pipeline.Prelude.Text.{Text}
use home_budget_pipeline.Prelude.Table.{Table, lookup, update, lookup-update, map_some}
use home_budget_pipeline.Prelude.Result.{returns}
use home_budget_pipeline.Categorization.Pipeline.{CategoryDecision}
use home_budget_pipeline.Categorization.Processing.{
  ItemRow, CanonicalExpenseItem, ExpenseCategorySplit, CategorizedExpense, load_items, decide_row,
  save_decision, save_all, decide_item, categorize_expense,
}

-- No key stands twice.
abbrev pub IsKeyed : Table ItemRow → Type 0
IsKeyed [] = Unit
IsKeyed ((id, _) ∷ rows) = (lookup id rows ≡ none) × IsKeyed rows

abbrev HasRow : Table ItemRow → CanonicalExpenseItem → Type 0
HasRow rows i = is_some (lookup i.id rows) ≡ true

is_some-map_some : (f : ItemRow → ItemRow) (o : Option ItemRow) → is_some (map_some f o) ≡ is_some o
is_some-map_some f none = refl
is_some-map_some f (some r) = refl

HasRow-update :
    (id : ℕ) (f : ItemRow → ItemRow) (rows : Table ItemRow) (items : List CanonicalExpenseItem)
    → All (HasRow rows) items
    → All (HasRow (update id f rows)) items
HasRow-update id f rows [] h = tt
HasRow-update id f rows (i ∷ items) h = (
  ground (arith, lookup-update id i.id f rows, is_some-map_some f (lookup i.id rows)),
  HasRow-update id f rows items h.1,
)

HasRow-cons :
    (id : ℕ) (r : ItemRow) (rows : Table ItemRow) (items : List CanonicalExpenseItem)
    → All (HasRow rows) items
    → All (HasRow ((id, r) ∷ rows)) items
unfolding lookup
HasRow-cons id r rows [] h = tt
HasRow-cons id r rows (i ∷ items) h = (ground arith, HasRow-cons id r rows items h.1)

load_items-HasRow : (pk : ℕ) (rows : Table ItemRow) → All (HasRow rows) (load_items pk rows)
unfolding load_items lookup
load_items-HasRow pk [] = tt
load_items-HasRow pk ((id, r) ∷ rows) =
    let rest = HasRow-cons id r rows (load_items pk rows) (load_items-HasRow pk rows) in
    elim (Bool-cases (r.expense_pk == pk)) [ inl e ↦ rw e (ground arith, rest) | inr e ↦ rw e rest ]

module _ (categorize : Text → Option Text → Option Text → CategoryDecision)
    (source merchant : Option Text) where
  -- The row of an item after its decision, and any other row as it was.
  abbrev pub decided_row : ℕ → ItemRow → ItemRow
  decided_row pk r =
      if r.expense_pk == pk then decide_row (categorize r.item_name source merchant) r else r

  -- The decisions of the items on the row of one key.
  decided : List CanonicalExpenseItem → ℕ → Option ItemRow → Option ItemRow
  decided [] k o = o
  decided (i ∷ items) k o =
      decided items k
        (if i.id == k then map_some (decide_row (categorize i.item_name source merchant)) o else o)

  save_all-decided :
      (items : List CanonicalExpenseItem) (rows : Table ItemRow)
      → All (HasRow rows) items
      → (saved : Table ItemRow) × (save_all categorize source merchant items rows ≡ returns saved)
        × ((k : ℕ) → lookup k saved ≡ decided items k (lookup k rows))
  unfolding save_all save_decision decided
  save_all-decided [] rows h = (rows, refl, λ k. refl)
  save_all-decided (i ∷ items) rows h =
      let f : ItemRow → ItemRow = decide_row (categorize i.item_name source merchant) in
      let (saved, e, look) =
        save_all-decided items (update i.id f rows) (HasRow-update i.id f rows items h.1) in
      (saved, rw (h.0) e, λ k. look k ∙ ap (decided items k) (lookup-update i.id k f rows))

  decided-if :
      (b : Bool) (i : CanonicalExpenseItem) (items : List CanonicalExpenseItem) (k : ℕ)
      (o : Option ItemRow)
      → decided (if b then i ∷ items else items) k o
        ≡ decided items k (
            if b
            then (if i.id == k
                then map_some (decide_row (categorize i.item_name source merchant)) o
                else o)
            else o)
  unfolding decided
  decided-if true i items k o = refl
  decided-if false i items k o = refl

  missed :
      (b c : Bool) (f : ItemRow → ItemRow) (o o' : Option ItemRow)
      → c ≡ false
      → o' ≡ o
      → (if b then (if c then map_some f o' else o') else o') ≡ o
  missed true true f o o' h e = cc
  missed true false f o o' h e = e
  missed false c f o o' h e = e

  hit :
      (b c : Bool) (f : ItemRow → ItemRow) (o : Option ItemRow) (r : ItemRow)
      → c ≡ true
      → o ≡ some r
      → (if b then (if c then map_some f o else o) else o) ≡ some (if b then f r else r)
  hit true true f o r h e = rw e refl
  hit true false f o r h e = cc
  hit false c f o r h e = e

  decided-absent :
      (pk : ℕ) (rows : Table ItemRow) (k : ℕ) (o : Option ItemRow)
      → lookup k rows ≡ none
      → decided (load_items pk rows) k o ≡ o
  unfolding load_items lookup decided
  decided-absent pk [] k o h = refl
  decided-absent pk ((id, r) ∷ rows) k o h =
      let other : (id == k) ≡ false = ground arith in
      let f : ItemRow → ItemRow = decide_row (categorize r.item_name source merchant) in
      decided-if (r.expense_pk == pk) _ (load_items pk rows) k o
      ∙ ap (decided (load_items pk rows) k) (missed (r.expense_pk == pk) (id == k) f o o other refl)
      ∙ decided-absent pk rows k o (ground arith)

  if-lookup :
      (c : Bool) (r : ItemRow) (o : Option ItemRow) → c ≡ true → (if c then some r else o) ≡ some r
  if-lookup c r o h = rw h refl

  else-lookup :
      (c : Bool) (r : ItemRow) (o : Option ItemRow) → c ≡ false → (if c then some r else o) ≡ o
  else-lookup c r o h = rw h refl

  decided-load :
      (pk : ℕ) (rows : Table ItemRow) (k : ℕ)
      → IsKeyed rows
      → decided (load_items pk rows) k (lookup k rows) ≡ map_some (decided_row pk) (lookup k rows)
  unfolding load_items lookup decided
  decided-load pk [] k h = refl
  decided-load pk ((id, r) ∷ rows) k h =
      let f : ItemRow → ItemRow = decide_row (categorize r.item_name source merchant) in
      let b : Bool = r.expense_pk == pk in
      let o : Option ItemRow = if id == k then some r else lookup k rows in
      elim (Bool-cases (id == k)) [
        | inl e ↦
            let found = if-lookup (id == k) r (lookup k rows) e in
            let gone : lookup k rows ≡ none =
              ap (λ n. lookup n rows) (sym ((==_iff id k).0 e)) ∙ h.0 in
            decided-if b _ (load_items pk rows) k o
            ∙ ap (decided (load_items pk rows) k) (hit b (id == k) f o r e found)
            ∙ decided-absent pk rows k (some (decided_row pk r)) gone
            ∙ ap (map_some (decided_row pk)) (sym found)
        | inr e ↦
            let found = else-lookup (id == k) r (lookup k rows) e in
            decided-if b _ (load_items pk rows) k o
            ∙ ap (decided (load_items pk rows) k) (missed b (id == k) f (lookup k rows) o e found)
            ∙ decided-load pk rows k h.1
            ∙ ap (map_some (decided_row pk)) (sym found)
      ]

  -- For a positive key and items whose keys differ, the categorization succeeds: it writes to every
  -- item of the expense the decision on its name, leaves every other item as it was, and reports the
  -- decision of each item.
  pub categorize_expense_saves :
      (load_splits : ℕ → Table ItemRow → List ExpenseCategorySplit) (pk : ℕ) (rows : Table ItemRow)
      → 0 < pk
      → IsKeyed rows
      → (result : CategorizedExpense) × (saved : Table ItemRow) × (categorize_expense categorize
            load_splits pk source merchant rows
          ≡ returns (result, saved))
        × ((k : ℕ) → lookup k saved ≡ map_some (decided_row pk) (lookup k rows))
        × (result.decisions ≡ map (decide_item categorize source merchant) (load_items pk rows))
  unfolding categorize_expense
  categorize_expense_saves load_splits pk rows positive keyed =
      let (saved, e, look) =
        save_all-decided (load_items pk rows) rows (load_items-HasRow pk rows) in
      (
        record {
          expense_pk = pk;
          decisions = map (decide_item categorize source merchant) (load_items pk rows);
          splits = load_splits pk saved;
        },
        saved,
        rw (lt→ltb 0 pk positive, e) refl,
        λ k. look k ∙ decided-load pk rows k keyed,
        refl,
      )
