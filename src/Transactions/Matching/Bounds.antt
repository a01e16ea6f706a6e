-- ===== src/Transactions/Matching/Bounds.antt =====
-- What a candidate's score says of its evidence.
use home_budget_pipeline.Prelude.{ℕ, ◌+◌, ◌≤◌, ◌≡◌, refl, ◌⊎◌, true, Option, none, some, arith}
use home_budget_pipeline.Prelude.Difflib.{Ratio}
use home_budget_pipeline.Transactions.Matching.{
  MatchCandidate, TransactionForMatching, CandidateScore, score, date_points, merchant_points,
  points, auto_match_threshold,
}

date_points-le : (d : Option ℕ) → date_points d ≤ 20
unfolding date_points
date_points-le none = omega arith
date_points-le (some d) = ground arith

merchant_points-le : (r : Ratio) → merchant_points r ≤ 20
unfolding merchant_points
merchant_points-le r = ground arith

-- The score of a candidate with the given evidence.
abbrev evidence_points : CandidateScore → ℕ
evidence_points s =
    points s.amount_match 45
    + date_points s.date_distance_days
    + merchant_points s.merchant_similarity
    + points s.card_match 10
    + points s.account_match 10
    + points s.identifier_match 30

score-eq-evidence_points :
    (t : TransactionForMatching) (c : MatchCandidate)
    → (score t c).score ≡ evidence_points (score t c)
score-eq-evidence_points t c = unfold score in refl

-- No candidate scores more than 135.
pub score-le : (t : TransactionForMatching) (c : MatchCandidate) → (score t c).score ≤ 135
score-le t c =
    let s = score t c in
    ground (
      arith,
      score-eq-evidence_points t c,
      date_points-le s.date_distance_days,
      merchant_points-le s.merchant_similarity,
    )

-- A candidate that reaches the automatic threshold has the exact amount or the bank's identifier:
-- date, merchant, card and account together do not reach it.
threshold_needs_evidence :
    (t : TransactionForMatching) (c : MatchCandidate)
    → auto_match_threshold ≤ (score t c).score
    → ((score t c).amount_match ≡ true) ⊎ ((score t c).identifier_match ≡ true)
threshold_needs_evidence t c h =
    let s = score t c in
    ground (
      arith,
      score-eq-evidence_points t c,
      date_points-le s.date_distance_days,
      merchant_points-le s.merchant_similarity,
    )
