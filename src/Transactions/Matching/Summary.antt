-- ===== src/Transactions/Matching/Summary.antt =====
-- `summarize` counts every decision once.
use home_budget_pipeline.Prelude.{
  ℕ, ◌+◌, ◌≡◌, refl, Bool, true, false, arith, List, [], ◌∷◌, length, count_if,
}
use home_budget_pipeline.Transactions.Matching.{
  matched, ambiguous, unmatched, MatchDecision, ReconciliationSummary, summarize, count_all,
  count_outcome,
}

abbrev pub is_matched : MatchDecision → Bool
is_matched d = elim d.outcome [ matched ↦ true | _ ↦ false ]

abbrev pub is_ambiguous : MatchDecision → Bool
is_ambiguous d = elim d.outcome [ ambiguous ↦ true | _ ↦ false ]

abbrev pub is_unmatched : MatchDecision → Bool
is_unmatched d = elim d.outcome [ unmatched ↦ true | _ ↦ false ]

-- The counts of `s` with those of the decisions added.
record Counts (ds : List MatchDecision) (s r : ReconciliationSummary) : Type 0 where
  matched_count : r.matched_count ≡ s.matched_count + count_if is_matched ds
  ambiguous_count : r.ambiguous_count ≡ s.ambiguous_count + count_if is_ambiguous ds
  unmatched_count : r.unmatched_count ≡ s.unmatched_count + count_if is_unmatched ds
  duplicates : r.duplicate_imports ≡ s.duplicate_imports

count_all-Counts :
    (ds : List MatchDecision) (s : ReconciliationSummary) → Counts ds s (count_all ds s)
unfolding count_all count_if
count_all-Counts [] s = omega arith
count_all-Counts (d ∷ ds) s =
    unfold count_outcome in ground (arith, count_all-Counts ds (count_outcome d.outcome s))

count_if-partition :
    (ds : List MatchDecision)
    → count_if is_matched ds + count_if is_ambiguous ds + count_if is_unmatched ds ≡ length ds
unfolding count_if
count_if-partition [] = refl
count_if-partition (d ∷ ds) = ground (arith, count_if-partition ds)

-- Each count of a summary is the number of decisions with that outcome, the three add up to the
-- number of decisions, and the duplicate imports are passed on.
summarize_counts :
    (ds : List MatchDecision) (duplicates : ℕ)
    → let r = summarize ds duplicates in
      (r.matched_count ≡ count_if is_matched ds)
      × (r.ambiguous_count ≡ count_if is_ambiguous ds)
      × (r.unmatched_count ≡ count_if is_unmatched ds)
      × (r.matched_count + r.ambiguous_count + r.unmatched_count ≡ length ds)
      × (r.duplicate_imports ≡ duplicates)
unfolding summarize
summarize_counts ds duplicates = omega (
  arith,
  count_all-Counts ds (record {
    matched_count = 0;
    ambiguous_count = 0;
    unmatched_count = 0;
    duplicate_imports = duplicates;
  }),
  count_if-partition ds,
)
