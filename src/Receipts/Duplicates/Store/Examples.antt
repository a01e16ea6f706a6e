-- ===== src/Receipts/Duplicates/Store/Examples.antt =====
-- Runs of the store, and an instance of its theorem.
use home_budget_pipeline.Prelude.{◌≡◌, refl, none, some, [], ◌∷◌}
use home_budget_pipeline.Prelude.Result.{raises, returns}
use home_budget_pipeline.Receipts.Duplicates.{DuplicateScore, probable}
use home_budget_pipeline.Receipts.Duplicates.Store.{
  DuplicateLink, DuplicateTables, rejected, manual_review, not_exact, ordered_pair, find_link,
  upsert_link, save_score, auto_link_exact,
}
use home_budget_pipeline.Receipts.Duplicates.Store.Decisions.{save_score_keeps_decisions}

abbrev new_score : DuplicateScore
new_score = record {
  left_evidence_id = 9;
  right_evidence_id = 4;
  score = 75;
  disposition = probable;
  reasons = [];
  item_similarity = record { common_keys = 0; all_keys = 1 };
}

abbrev refused : DuplicateLink
refused = record {
  left_evidence_id = 4;
  right_evidence_id = 9;
  canonical_expense_pk = none;
  score = 60;
  disposition = probable;
  reasons = [];
  item_similarity = record { common_keys = 0; all_keys = 1 };
  resolution_status = rejected;
  resolution_source = some manual_review;
}

abbrev before : DuplicateTables
before = record { evidence = []; links = refused ∷ [] }

abbrev rescored : DuplicateTables
rescored = record { evidence = []; links = (record refused { score = 75 }) ∷ [] }

rescore_run : save_score new_score before ≡ returns rescored
unfolding save_score ordered_pair upsert_link
rescore_run = refl

no_auto_link : auto_link_exact new_score 5 before ≡ raises not_exact
unfolding auto_link_exact
no_auto_link = refl

refused_found : find_link 4 9 before.links ≡ some refused
unfolding find_link
refused_found = refl

save_score_keeps_decisions_example :
    (rescored.evidence ≡ before.evidence)
    × (e : DuplicateLink) × (find_link 4 9 rescored.links ≡ some e)
    × (e.resolution_status ≡ refused.resolution_status)
    × (e.resolution_source ≡ refused.resolution_source)
    × (e.canonical_expense_pk ≡ refused.canonical_expense_pk)
save_score_keeps_decisions_example =
    save_score_keeps_decisions new_score before rescored 4 9 refused rescore_run refused_found
