-- ===== src/Receipts/Sources/Examples.antt =====
-- A plan for a moved file, and an instance of its theorem.
use home_budget_pipeline.Prelude.{◌≡◌, refl, true, List, [], ◌∷◌}
use home_budget_pipeline.Prelude.Text.{codes}
use home_budget_pipeline.Categorization.Logic.{get}
use home_budget_pipeline.Receipts.Sources.{
  Files, SourceRow, restore, same_source_hash_found, first_match, desired, change_for, plan_row,
  plan, apply_plan, text_less,
}
use home_budget_pipeline.Receipts.Sources.Settled.{IsKeyedFiles, plan_settles}

abbrev files : Files
files =
    (codes "a/2.pdf", codes "h1")
    ∷ (codes "a/1.pdf", codes "h1")
    ∷ (codes "a/old.pdf", codes "h2")
    ∷ []

abbrev rows : List SourceRow
rows =
    (record {
      id = 1;
      source_reference = codes "a/old.pdf";
      source_sha256 = codes "h1";
      source_archived = true;
    })
    ∷ []

-- The smallest of the references with the hash is taken.
restored_row :
    plan rows files
    ≡ (record {
      evidence_id = 1;
      action = restore;
      reason = same_source_hash_found;
      old_reference = codes "a/old.pdf";
      new_reference = codes "a/1.pdf";
    })
      ∷ []
unfolding plan plan_row change_for desired first_match get text_less
restored_row = refl

files-IsKeyedFiles : IsKeyedFiles files
unfolding get
files-IsKeyedFiles = (refl, (refl, (refl, tt)))

plan_settles_example : plan (apply_plan rows files) files ≡ []
plan_settles_example = plan_settles rows files files-IsKeyedFiles
