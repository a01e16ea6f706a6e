-- ===== src/Receipts/Backlog/Summary.antt =====
-- The summary of a run over the backlog.
use home_budget_pipeline.Prelude.{
  ℕ, ◌+◌, Bool, true, false, not, some, List, [], ◌∷◌, length, select, suc, ◌≡◌, refl, arith, ◌∙◌,
}
use home_budget_pipeline.Prelude.Result.{Result, raises, returns}
use home_budget_pipeline.Receipts.Backlog.{
  processing, succeeded, review_required, failed, BacklogError, BacklogDatabase, ReceiptCandidate,
}
use home_budget_pipeline.Receipts.Backlog.Process.{
  ParsedReceipt, Attempt, CandidateStatus, skipped, finished_as, process_candidate,
}
use home_budget_pipeline.Receipts.Backlog.Runs.{
  BacklogSummary, count_result, backlog_options, is_done, plan_unprocessed_receipts,
  process_pending, first_summary, process_backlog,
}

-- The receipts that the summary counts.
abbrev pub counted : BacklogSummary → ℕ
counted s = s.skipped + s.succeeded + s.failed + s.review_required

counted-count_result :
    (r : Result BacklogError CandidateStatus) (s : BacklogSummary)
    → (counted (count_result r s) ≡ counted s + 1) × ((count_result r s).discovered ≡ s.discovered)
unfolding count_result
counted-count_result (raises exc) s = (omega arith, refl)
counted-count_result (returns skipped) s = (omega arith, refl)
counted-count_result (returns (finished_as processing)) s = (omega arith, refl)
counted-count_result (returns (finished_as succeeded)) s = (omega arith, refl)
counted-count_result (returns (finished_as failed)) s = (omega arith, refl)
counted-count_result (returns (finished_as review_required)) s = (omega arith, refl)

partition_length :
    {A : Type 0} (p : A → Bool) (xs : List A)
    → length (select p xs) + length (select (λ x. not (p x)) xs) ≡ length xs
unfolding select
partition_length p [] = refl
partition_length p (x ∷ xs) = ground (arith, partition_length p xs)

module _ {E : Type 0} (persist : Bool → ParsedReceipt → E → Result BacklogError E) where
  counted-process_pending :
      (refresh : Bool) (attempt : ℕ → Attempt) (i : ℕ) (pending : List ReceiptCandidate)
      (s : BacklogSummary) (db : BacklogDatabase E)
      → (counted (process_pending persist refresh attempt i pending (s, db)).0
          ≡ counted s + length pending)
        × ((process_pending persist refresh attempt i pending (s, db)).0.discovered ≡ s.discovered)
  unfolding process_pending
  counted-process_pending refresh attempt i [] s db = (omega arith, refl)
  counted-process_pending refresh attempt i (c ∷ pending) s db =
      let (result, next) = process_candidate persist c (backlog_options refresh) (attempt i) db in
      let (step, kept) = counted-count_result result s in
      let (rest, same) =
        counted-process_pending refresh attempt (suc i) pending (count_result result s) next in
      (omega (arith, step, rest), same ∙ kept)

  -- A run that gets the lock counts every discovered receipt once, as skipped, as done, as to be
  -- reviewed or as failed, whichever attempts fail.
  pub summary_counts_discovered :
      (refresh : Bool) (attempt : ℕ → Attempt) (candidates : List ReceiptCandidate)
      (db : BacklogDatabase E)
      → (s : BacklogSummary) × ((process_backlog persist true refresh attempt candidates db).0
          ≡ some s)
        × (s.discovered ≡ length candidates)
        × (counted s ≡ length candidates)
  unfolding process_backlog plan_unprocessed_receipts
  summary_counts_discovered true attempt candidates db =
      let (all, same) =
        counted-process_pending true attempt 1 candidates
          (first_summary persist true (plan_unprocessed_receipts candidates db)) db in
      (_, refl, same, omega (arith, all))
  summary_counts_discovered false attempt candidates db =
      let plan = plan_unprocessed_receipts candidates db in
      let (all, same) =
        counted-process_pending false attempt 1 plan.pending (first_summary persist false plan)
          db in
      (_, refl, same, omega (arith, all, partition_length (is_done db) candidates))
