-- ===== src/Transactions/Matching.antt =====
-- transactions/reconciliation.py: matching of bank transactions to canonical expenses. Dates are
-- proleptic ordinals, amounts integers of cents, keys natural numbers.
pub mod Bounds
pub mod Decide
pub mod Summary
pub mod Examples
use home_budget_pipeline.Prelude.{
  ℕ, ◌+◌, ◌-◌, Bool, false, ◌&&◌, ◌||◌, Option, none, some, List, [], ◌∷◌, map, leb, ltb, ◌==◌,
  if◌then◌else◌,
}
use home_budget_pipeline.Prelude.Int.{ℤ, ◌==ℤ◌}
use home_budget_pipeline.Prelude.Text.{Text, ◌==ₜ◌, truthy, lower, strip, split, join}
use home_budget_pipeline.Prelude.Ranking.{rank}
use home_budget_pipeline.Prelude.Difflib.{Ratio, ratio, at_least, zero_ratio}

pub data MatchOutcome : Type 0 where
  matched ambiguous unmatched : MatchOutcome

pub record MatchCandidate : Type 0 where
  pub expense_pk : ℕ
  pub merchant : Option Text
  pub transaction_date : Option ℕ
  pub amount : Option ℤ
  pub card_last4 : Option Text
  pub account_id : Option ℕ
  pub receipt_id : Option Text
  pub order_id : Option Text

pub record TransactionForMatching : Type 0 where
  pub transaction_id : ℕ
  pub transaction_date : ℕ
  pub amount : ℤ
  pub merchant_text : Text
  pub card_last4 : Option Text
  pub account_id : Option ℕ
  pub source_transaction_id : Option Text

pub record CandidateScore : Type 0 where
  pub candidate : MatchCandidate
  pub score : ℕ
  pub amount_match : Bool
  pub date_distance_days : Option ℕ
  pub merchant_similarity : Ratio
  pub card_match : Bool
  pub account_match : Bool
  pub identifier_match : Bool

pub record MatchDecision : Type 0 where
  pub outcome : MatchOutcome
  pub transaction_id : ℕ
  pub matched_expense_pk : Option ℕ
  pub score : Option ℕ
  pub candidates : List CandidateScore

pub record ReconciliationSummary : Type 0 where
  pub matched_count : ℕ
  pub ambiguous_count : ℕ
  pub unmatched_count : ℕ
  pub duplicate_imports : ℕ

abbrev pub auto_match_threshold : ℕ
auto_match_threshold = 80

abbrev pub ambiguity_margin : ℕ
ambiguity_margin = 10

-- `_norm`; a missing and an empty text are both false.
unfoldable pub norm : Option Text → Text
unfolding lower strip split join
norm none = []
norm (some value) = if truthy value then join (split (strip (lower value))) else []

-- `_similarity`
unfoldable pub similarity : Option Text → Option Text → Ratio
unfolding norm ratio
similarity a b = if truthy (norm a) && truthy (norm b) then ratio (norm a) (norm b) else zero_ratio

unfoldable pub amount_matches : ℤ → Option ℤ → Bool
amount_matches amount none = false
amount_matches amount (some candidate_amount) = candidate_amount ==ℤ amount

-- `abs((a - b).days)` on ordinals.
abbrev day_distance : ℕ → ℕ → ℕ
day_distance a b = (a - b) + (b - a)

unfoldable pub date_distance : ℕ → Option ℕ → Option ℕ
date_distance day none = none
date_distance day (some other) = some (day_distance other day)

unfoldable pub date_points : Option ℕ → ℕ
date_points none = 0
date_points (some days) =
    if days == 0 then 20 else if days == 1 then 10 else if leb days 3 then 5 else 0

unfoldable pub merchant_points : Ratio → ℕ
merchant_points r =
    if at_least 90 r then 20 else if at_least 75 r then 10 else if at_least 55 r then 5 else 0

-- Both are present and not empty, and equal.
unfoldable pub cards_match : Option Text → Option Text → Bool
cards_match (some a) (some b) = truthy a && truthy b && a ==ₜ b
cards_match _ _ = false

unfoldable pub accounts_match : Option ℕ → Option ℕ → Bool
accounts_match (some a) (some b) = a == b
accounts_match _ _ = false

unfoldable pub identifiers_match : Text → Option Text → Option Text → Bool
unfolding norm
identifiers_match tx receipt_id order_id =
    truthy tx && (tx ==ₜ norm receipt_id || tx ==ₜ norm order_id)

abbrev pub points : Bool → ℕ → ℕ
points b n = if b then n else 0

-- `TransactionReceiptMatcher.score`
unfoldable pub score : TransactionForMatching → MatchCandidate → CandidateScore
unfolding amount_matches date_distance date_points merchant_points similarity cards_match
    accounts_match identifiers_match
score transaction candidate =
    let amount_match = amount_matches transaction.amount candidate.amount in
    let days = date_distance transaction.transaction_date candidate.transaction_date in
    let merchant = similarity (some transaction.merchant_text) candidate.merchant in
    let card_match = cards_match transaction.card_last4 candidate.card_last4 in
    let account_match = accounts_match transaction.account_id candidate.account_id in
    let identifier_match =
      identifiers_match (norm transaction.source_transaction_id) candidate.receipt_id
        candidate.order_id in
    record {
      candidate = candidate;
      score =
          points amount_match 45
          + date_points days
          + merchant_points merchant
          + points card_match 10
          + points account_match 10
          + points identifier_match 30;
      amount_match = amount_match;
      date_distance_days = days;
      merchant_similarity = merchant;
      card_match = card_match;
      account_match = account_match;
      identifier_match = identifier_match;
    }

abbrev pub score_of : CandidateScore → ℕ
score_of s = s.score

abbrev pub pk_of : CandidateScore → ℕ
pk_of s = s.candidate.expense_pk

-- The second best is within the margin of the best.
unfoldable pub is_close : ℕ → List CandidateScore → Bool
is_close best [] = false
is_close best (second ∷ rest) = leb best (second.score + ambiguity_margin)

-- The tests of `decide` on the sorted scores.
unfoldable pub judge : ℕ → List CandidateScore → MatchDecision
unfolding is_close
judge transaction_id [] = record {
  outcome = unmatched;
  transaction_id = transaction_id;
  matched_expense_pk = none;
  score = none;
  candidates = [];
}
judge transaction_id (best ∷ rest) =
    if ltb best.score auto_match_threshold
    then (record {
      outcome = unmatched;
      transaction_id = transaction_id;
      matched_expense_pk = none;
      score = none;
      candidates = best ∷ rest;
    })
    else if is_close best.score rest
    then (record {
      outcome = ambiguous;
      transaction_id = transaction_id;
      matched_expense_pk = none;
      score = some best.score;
      candidates = best ∷ rest;
    })
    else record {
      outcome = matched;
      transaction_id = transaction_id;
      matched_expense_pk = some best.candidate.expense_pk;
      score = some best.score;
      candidates = best ∷ rest;
    }

-- `TransactionReceiptMatcher.decide`
unfoldable pub decide : TransactionForMatching → List MatchCandidate → MatchDecision
unfolding judge score rank
decide transaction candidates =
    judge transaction.transaction_id (rank score_of pk_of (map (score transaction) candidates))

-- One step of the count in `summarize`.
unfoldable pub count_outcome : MatchOutcome → ReconciliationSummary → ReconciliationSummary
count_outcome matched s = record s { matched_count = s.matched_count + 1 }
count_outcome ambiguous s = record s { ambiguous_count = s.ambiguous_count + 1 }
count_outcome unmatched s = record s { unmatched_count = s.unmatched_count + 1 }

count_all : List MatchDecision → ReconciliationSummary → ReconciliationSummary
unfolding count_outcome
count_all [] s = s
count_all (d ∷ ds) s = count_all ds (count_outcome d.outcome s)

-- `TransactionReceiptMatcher.summarize`
unfoldable pub summarize : List MatchDecision → ℕ → ReconciliationSummary
unfolding count_all
summarize decisions duplicate_imports = count_all decisions (record {
  matched_count = 0;
  ambiguous_count = 0;
  unmatched_count = 0;
  duplicate_imports = duplicate_imports;
})
