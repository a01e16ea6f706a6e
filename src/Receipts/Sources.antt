-- ===== src/Receipts/Sources.antt =====
-- receipts/source_reconciliation.py: the plan that follows moved, replaced and missing source files.
pub mod Settled
mod Examples
use home_budget_pipeline.Prelude.{
  ℕ, Bool, true, false, not, ◌&&◌, ◌||◌, Option, none, some, List, [], ◌∷◌, ltb, ◌==◌, is_some,
  if◌then◌else◌,
}
use home_budget_pipeline.Prelude.Text.{Text, ◌==ₜ◌}
use home_budget_pipeline.Categorization.Logic.{get}

-- The files by reference, with their hashes.
abbrev pub Files : Type 0
Files = List (Text × Text)

-- What the plan reads of a row of evidence or of the registry.
pub record SourceRow : Type 0 where
  pub id : ℕ
  pub source_reference : Text
  pub source_sha256 : Text
  pub source_archived : Bool

pub data SourceAction : Type 0 where
  archive restore relocate : SourceAction

pub data SourceReason : Type 0 where
  source_replaced source_missing same_source_hash_found : SourceReason

pub record SourceChange : Type 0 where
  pub evidence_id : ℕ
  pub action : SourceAction
  pub reason : SourceReason
  pub old_reference : Text
  pub new_reference : Text

-- The order of Python's strings.
unfoldable pub text_less : Text → Text → Bool
text_less [] [] = false
text_less [] (d ∷ t) = true
text_less (c ∷ s) [] = false
text_less (c ∷ s) (d ∷ t) = ltb c d || (c == d && text_less s t)

abbrev pub smaller : Text → Option Text → Text
smaller r none = r
smaller r (some q) = if text_less q r then q else r

-- `next(iter(sorted(…)), None)`: the smallest reference of a file with the hash.
unfoldable pub first_match : Text → Files → Option Text
unfolding text_less
first_match sha [] = none
first_match sha ((r, s) ∷ files) =
    let rest = first_match sha files in if s ==ₜ sha then some (smaller r rest) else rest

abbrev pub is_hash : Text → Option Text → Bool
is_hash sha none = false
is_hash sha (some s) = s ==ₜ sha

-- `desired`
unfoldable pub desired : Files → Text → Text → Option Text
unfolding get first_match
desired files reference sha =
    if is_hash sha (get reference files) then some reference else first_match sha files

unfoldable pub change_for : Files → SourceRow → Option Text → Option SourceChange
unfolding get
change_for files row none =
    if row.source_archived
    then none
    else some (record {
      evidence_id = row.id;
      action = archive;
      reason = if is_some (get row.source_reference files) then source_replaced else source_missing;
      old_reference = row.source_reference;
      new_reference = row.source_reference;
    })
change_for files row (some d) =
    if not (d ==ₜ row.source_reference) || row.source_archived
    then some (record {
      evidence_id = row.id;
      action = if row.source_archived then restore else relocate;
      reason = same_source_hash_found;
      old_reference = row.source_reference;
      new_reference = d;
    })
    else none

-- The body of the loop of `plan`.
unfoldable pub plan_row : Files → SourceRow → Option SourceChange
unfolding change_for desired
plan_row files row = change_for files row (desired files row.source_reference row.source_sha256)

abbrev pub add_change : Option SourceChange → List SourceChange → List SourceChange
add_change none rest = rest
add_change (some c) rest = c ∷ rest

-- `plan`
unfoldable pub plan : List SourceRow → Files → List SourceChange
unfolding plan_row
plan [] files = []
plan (row ∷ rows) files = add_change (plan_row files row) (plan rows files)

abbrev pub is_archive : SourceAction → Bool
is_archive archive = true
is_archive _ = false

-- The writes of `reconcile` for a row and its change.
unfoldable pub apply_change : SourceRow → Option SourceChange → SourceRow
apply_change row none = row
apply_change row (some c) = record row {
  source_reference = c.new_reference;
  source_archived = is_archive c.action;
}

-- The rows after an applied plan; the keys of the rows differ, so that each change meets its row.
unfoldable pub apply_plan : List SourceRow → Files → List SourceRow
unfolding apply_change plan_row
apply_plan [] files = []
apply_plan (row ∷ rows) files = apply_change row (plan_row files row) ∷ apply_plan rows files
