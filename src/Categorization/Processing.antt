-- ===== src/Categorization/Processing.antt =====
-- categorization/processing.py: the categorization of one expense. The pipeline and the view that adds
-- up the categories are parameters; the time of a decision is left out.
pub mod Saved
mod Examples
use home_budget_pipeline.Prelude.{
  ℕ, Bool, Option, some, List, [], ◌∷◌, map, any, ltb, ◌==◌, is_some, if◌then◌else◌,
}
use Prim.Native.String.{String}
use home_budget_pipeline.Prelude.Int.{ℤ}
use home_budget_pipeline.Prelude.Text.{Text}
use home_budget_pipeline.Prelude.Table.{Table, lookup, update}
use home_budget_pipeline.Prelude.Result.{Result, returns, ◌>>=◌, ◌>>◌, require}
use home_budget_pipeline.Categorization.Pipeline.{CategoryDecision, CategoryProvenance}

-- A row of budget.expense_items, without its key.
pub record ItemRow : Type 0 where
  pub expense_pk : ℕ
  pub item_name : Text
  pub line_total : Option ℤ
  pub budget_category : Option Text
  pub category_source : Option CategoryProvenance
  pub category_confidence : Option ℕ
  pub category_rationale : Option String
  pub category_requires_review : Bool

pub record CanonicalExpenseItem : Type 0 where
  pub id : ℕ
  pub expense_pk : ℕ
  pub item_name : Text
  pub line_total : Option ℤ

pub record ExpenseCategorySplit : Type 0 where
  pub expense_pk : ℕ
  pub category_name : Text
  pub category_amount : ℤ
  pub item_count : ℕ
  pub requires_review : Bool

pub record CategorizedExpense : Type 0 where
  pub expense_pk : ℕ
  pub decisions : List (CanonicalExpenseItem × CategoryDecision)
  pub splits : List ExpenseCategorySplit

-- The `ValueError`, and the `LookupError` of the store.
pub data ProcessingError : Type 0 where
  expense_pk_not_positive item_not_found : ProcessingError

-- `CategorizedExpense.requires_review`
unfoldable pub requires_review : CategorizedExpense → Bool
unfolding any
requires_review e =
    any (λ (d : CanonicalExpenseItem × CategoryDecision). d.1.requires_review) e.decisions

-- `load_items`; the rows are kept in the order of the keys.
unfoldable pub load_items : ℕ → Table ItemRow → List CanonicalExpenseItem
load_items pk [] = []
load_items pk ((id, r) ∷ rows) =
    let rest = load_items pk rows in
    if r.expense_pk == pk
    then record {
      id = id;
      expense_pk = r.expense_pk;
      item_name = r.item_name;
      line_total = r.line_total;
    }
      ∷ rest
    else rest

-- The columns that a decision writes.
abbrev pub decide_row : CategoryDecision → ItemRow → ItemRow
decide_row d r = record r {
  budget_category = d.category;
  category_source = some d.provenance;
  category_confidence = d.confidence;
  category_rationale = some d.rationale;
  category_requires_review = d.requires_review;
}

-- `save_decision`
unfoldable pub save_decision :
    ℕ → CategoryDecision → Table ItemRow → Result ProcessingError (Table ItemRow)
unfolding lookup update
save_decision id d rows = do
  require (is_some (lookup id rows)) item_not_found
  returns (update id (decide_row d) rows)

module _ (categorize : Text → Option Text → Option Text → CategoryDecision) where
  -- The loop over the items; the decisions are those of the items, in their order.
  unfoldable pub save_all :
      Option Text
      → Option Text
      → List CanonicalExpenseItem
      → Table ItemRow
      → Result ProcessingError (Table ItemRow)
  unfolding save_decision
  save_all source merchant [] rows = returns rows
  save_all source merchant (i ∷ items) rows =
      save_decision i.id (categorize i.item_name source merchant) rows
      >>= save_all source merchant items

  abbrev pub decide_item :
      Option Text → Option Text → CanonicalExpenseItem → CanonicalExpenseItem × CategoryDecision
  decide_item source merchant i = (i, categorize i.item_name source merchant)

  -- `categorize_expense`; the second component is what is committed.
  unfoldable pub categorize_expense :
      (ℕ → Table ItemRow → List ExpenseCategorySplit)
      → ℕ
      → Option Text
      → Option Text
      → Table ItemRow
      → Result ProcessingError (CategorizedExpense × Table ItemRow)
  unfolding save_all load_items
  categorize_expense load_splits pk source merchant rows = do
    require (ltb 0 pk) expense_pk_not_positive
    saved ← save_all source merchant (load_items pk rows) rows
    returns (
      record {
        expense_pk = pk;
        decisions = map (decide_item source merchant) (load_items pk rows);
        splits = load_splits pk saved;
      },
      saved,
    )
