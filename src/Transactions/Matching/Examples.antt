-- ===== src/Transactions/Matching/Examples.antt =====
-- Runs of the matcher, and instances of its theorems.
use mathlib.Core.List.{Pairwise}
use mathlib.Core.List.Perm
use mathlib.Core.List.{not-mem-nil, mem-cons}
use mathlib.Core.Logic.Or
use mathlib.Core.HLevel.{¬_prop}
use home_budget_pipeline.Prelude.{◌≤◌, ◌≡◌, refl, ◌≢◌, none, some, arith, List, [], ◌∷◌}
use home_budget_pipeline.Prelude.Int.{pos}
use home_budget_pipeline.Prelude.Text.{codes}
use home_budget_pipeline.Transactions.Matching.{
  matched, MatchCandidate, TransactionForMatching, CandidateScore, MatchDecision, score, decide,
}
use home_budget_pipeline.Transactions.Matching.Bounds.{score-le}
use home_budget_pipeline.Transactions.Matching.Decide.{
  Wins, scores, decide_links_winner, decide_links_clear_winner, decide_order,
}

abbrev pub grocer : TransactionForMatching
grocer = record {
  transaction_id = 7;
  transaction_date = 739000;
  amount = pos 4599;
  merchant_text = codes "COSTCO WHOLESALE W1";
  card_last4 = some (codes "4242");
  account_id = some 3;
  source_transaction_id = none;
}

abbrev costco_run : MatchCandidate
costco_run = record {
  expense_pk = 11;
  merchant = some (codes "Costco Wholesale W1");
  transaction_date = some 739001;
  amount = some (pos 4599);
  card_last4 = some (codes "4242");
  account_id = none;
  receipt_id = none;
  order_id = none;
}

abbrev other_run : MatchCandidate
other_run = record costco_run { expense_pk = 12; amount = some (pos 999); transaction_date = none }

costco_score : (score grocer costco_run).score ≡ 85
unfolding score
costco_score = refl

score-le_example : (score grocer costco_run).score ≤ 135
score-le_example = score-le grocer costco_run

abbrev runs : List MatchCandidate
runs = other_run ∷ costco_run ∷ []

runs_matched : (decide grocer runs).outcome ≡ matched
unfolding decide
runs_matched = refl

decide_links_winner_example :
    (best : CandidateScore) × Wins (scores grocer runs) best
    × ((decide grocer runs).matched_expense_pk ≡ some best.candidate.expense_pk)
decide_links_winner_example = decide_links_winner grocer runs runs_matched

best_run-Wins : Wins (scores grocer runs) (score grocer costco_run)
best_run-Wins = (
  score grocer other_run ∷ [],
  Perm.swap (score grocer costco_run) (score grocer other_run) [],
  unfold score in omega arith,
  (unfold score in omega arith, tt),
)

decide_links_clear_winner_example :
    ((decide grocer runs).outcome ≡ matched)
    × ((decide grocer runs).matched_expense_pk
        ≡ some (score grocer costco_run).candidate.expense_pk)
decide_links_clear_winner_example =
    decide_links_clear_winner grocer runs (score grocer costco_run) best_run-Wins

runs_distinct : Pairwise (λ (a b : MatchCandidate). a.expense_pk ≢ b.expense_pk) runs
runs_distinct =
    Pairwise.cons
      (λ c m. Or.elim ¬_prop (mem-cons.0 m) (λ e. rw e (omega arith)) (λ k. absurd (not-mem-nil k)))
      (Pairwise.cons (λ c m. absurd (not-mem-nil m)) Pairwise.nil)

decide_order_example : decide grocer runs ≡ decide grocer (costco_run ∷ other_run ∷ [])
decide_order_example =
    decide_order grocer runs (costco_run ∷ other_run ∷ []) runs_distinct
      (Perm.swap costco_run other_run [])

abbrev decisions : List MatchDecision
decisions = decide grocer runs ∷ decide grocer [] ∷ []
