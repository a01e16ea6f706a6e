-- ===== src/Receipts/Duplicates/Score/Examples.antt =====
-- Runs of the duplicate scorer, and instances of its theorems.
use home_budget_pipeline.Prelude.{◌≡◌, refl, none, some, [], ◌∷◌, any, select}
use home_budget_pipeline.Prelude.Int.{pos, ◌-ℤ◌}
use home_budget_pipeline.Prelude.Sets.{member, distinct, common, union}
use home_budget_pipeline.Prelude.Text.{Text, codes, lower, split, split_from, join, is_space}
use home_budget_pipeline.Prelude.Words.{spaced, spaced_from, letters}
use home_budget_pipeline.Receipts.Duplicates.{
  exact, ReceiptEvidenceFingerprint, ReceiptItemFingerprint, norm_id, norm_text, normal_places,
  quantity_key, item_key, keys, item_similarity_of,
}
use home_budget_pipeline.Receipts.Duplicates.Score.{
  identifiers, identifiers_meet, merchants_match, nearness, agreement, cards_match, item_overlap,
  compare_receipts, correlated, score_of_findings, disposition_for, score,
}
use home_budget_pipeline.Receipts.Duplicates.Score.Evidence.{
  IsIdentifierOf, exact_shares_identifier,
}
use home_budget_pipeline.Receipts.Duplicates.Score.Symmetry.{score_symmetric}
use home_budget_pipeline.Receipts.Duplicates.Score.Rank.{
  IsBestFirst, Others, rank_candidates-IsBestFirst,
}
use home_budget_pipeline.Receipts.Duplicates.Score.{rank_candidates}
use home_budget_pipeline.Prelude.{map, List}
use mathlib.Core.List.{Perm}

abbrev milk : ReceiptItemFingerprint
milk = record {
  name = codes "Milk 2%";
  quantity = some (record { amount = pos 10; places = 1 });
  line_total = some (pos 549);
}

abbrev scan : ReceiptEvidenceFingerprint
scan = record {
  evidence_id = 4;
  source_type = codes "scanned";
  merchant = some (codes "COSTCO #57");
  transaction_datetime = some 1_000_000;
  total = some (pos 1999);
  receipt_id = some (codes "A-100");
  order_id = none;
  card_last4 = some (codes "1234");
  items = milk ∷ [];
}

abbrev order : ReceiptEvidenceFingerprint
order = record {
  evidence_id = 9;
  source_type = codes "instacart";
  merchant = some (codes "Costco 57");
  transaction_datetime = some 200_000_000;
  total = some (pos 2000);
  receipt_id = none;
  order_id = some (codes "a100");
  card_last4 = some (codes "1234");
  items =
      (record {
        name = codes "milk-2";
        quantity = some (record { amount = pos 1; places = 0 });
        line_total = none;
      })
      ∷ [];
}

scan-order : (score scan order).score ≡ 130
unfolding score compare_receipts identifiers identifiers_meet merchants_match nearness agreement
    cards_match item_overlap score_of_findings item_similarity_of keys item_key quantity_key
    normal_places norm_id norm_text letters spaced spaced_from lower split split_from join is_space
    member distinct common union any select ◌-ℤ◌
scan-order = refl

scan-order_exact : (score scan order).disposition ≡ exact
unfolding score compare_receipts identifiers identifiers_meet merchants_match nearness agreement
    cards_match item_overlap score_of_findings item_similarity_of keys item_key quantity_key
    normal_places norm_id norm_text letters spaced spaced_from lower split split_from join is_space
    member distinct common union any select ◌-ℤ◌ correlated disposition_for
scan-order_exact = refl

exact_shares_identifier_example : (i : Text) × IsIdentifierOf i scan × IsIdentifierOf i order
exact_shares_identifier_example = exact_shares_identifier scan order scan-order_exact

score_symmetric_example :
    ((score scan order).score ≡ (score order scan).score)
    × ((score scan order).disposition ≡ (score order scan).disposition)
    × ((score scan order).reasons ≡ (score order scan).reasons)
    × ((score scan order).item_similarity ≡ (score order scan).item_similarity)
score_symmetric_example = score_symmetric scan order

rank_candidates-IsBestFirst_example :
    IsBestFirst (rank_candidates scan (scan ∷ order ∷ []))
    × (os : List ReceiptEvidenceFingerprint) × Others scan (scan ∷ order ∷ []) os
    × Perm (rank_candidates scan (scan ∷ order ∷ [])) (map (score scan) os)
rank_candidates-IsBestFirst_example = rank_candidates-IsBestFirst scan (scan ∷ order ∷ [])
