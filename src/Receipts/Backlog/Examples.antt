-- ===== src/Receipts/Backlog/Examples.antt =====
-- Runs of the backlog, and instances of its theorems.
use home_budget_pipeline.Prelude.{
  select, List, any, if◌then◌else◌, ◌==◌, Bool, ◌≡◌, refl, true, false, none, some, [], ◌∷◌, ℕ,
  arith,
}
use home_budget_pipeline.Prelude.Text.{Text, codes}
use home_budget_pipeline.Prelude.Table.{lookup, upsert}
use home_budget_pipeline.Prelude.Result.{Result, raises, returns}
use home_budget_pipeline.Receipts.Backlog.{
  find_request, StatusRow, is_completed, row_reached, review_required, failed, BacklogError,
  parser_error, source_changed, BacklogDatabase, ReceiptCandidate, mark_processing, mark_completed,
  mark_failed,
}
use home_budget_pipeline.Receipts.Intake.{
  IntakeEvent, IntakeMessage, remove_suffix, watched_queues, eligible, is_held, reserve,
}
use home_budget_pipeline.Receipts.Backlog.Retry.{
  RetryReady, matching, is_unfinished, reset_row, reset_transaction, reset_receipt_for_retry,
}
use home_budget_pipeline.Receipts.Backlog.Retry.Unblocked.{reset_unblocks}
use home_budget_pipeline.Receipts.Backlog.Process.{
  ParsedReceipt, Attempt, ProcessOptions, finished_as, run_attempt, attempt_receipt,
  process_claimed, process_candidate,
}
use home_budget_pipeline.Receipts.Backlog.Attempts.{IsRecorded, process_candidate-IsRecorded}
use home_budget_pipeline.Receipts.Backlog.Bounded.{IsLimited}
use home_budget_pipeline.Receipts.Backlog.Requests.{requested}
use home_budget_pipeline.Receipts.Backlog.Limit.{process_candidate-IsLimited}
use home_budget_pipeline.Receipts.Backlog.Runs.{BacklogSummary, process_backlog}
use home_budget_pipeline.Receipts.Backlog.Summary.{counted, summary_counts_discovered}

-- The options of the queue's own work: a limit of n attempts, and no request.
abbrev normal_options : Bool → ℕ → Bool → ProcessOptions
normal_options refresh n verify = record {
  refresh_ocr_cache = refresh;
  max_attempts = some n;
  verify_source = verify;
  reprocess_request_id = none;
}

-- The evidence is the list of the digests that were kept.
abbrev keep : Bool → ParsedReceipt → ℕ → Result BacklogError ℕ
keep refresh r n = returns r.source_sha256

abbrev shop : ReceiptCandidate
shop = record { reference = codes "shop.pdf"; source_sha256 = 7 }

abbrev reads : Attempt
reads = record {
  sha_before = 7;
  parsed = returns (record { source_sha256 = 7; is_complete = false } ∷ []);
  sha_after = 7;
}

abbrev breaks : Attempt
breaks = record { sha_before = 7; parsed = raises (parser_error []); sha_after = 7 }

abbrev empty : BacklogDatabase ℕ
empty = record { receipts = []; statuses = []; requests = []; evidence = 0 }

abbrev failed_twice : BacklogDatabase ℕ
failed_twice = record empty {
  statuses =
      (
        7,
        record {
          status = failed;
          attempts = 2;
          last_error = some source_changed;
          completed = false;
        },
      )
      ∷ [];
}

needs_review : process_candidate keep shop (normal_options false 3 true) reads empty ≡ (
  returns (finished_as review_required),
  record {
    receipts = (7, codes "shop.pdf") ∷ [];
    statuses =
        (7, record { status = review_required; attempts = 1; last_error = none; completed = true })
        ∷ [];
    requests = [];
    evidence = 7;
  },
)
unfolding process_candidate process_claimed attempt_receipt run_attempt mark_processing
    mark_completed lookup upsert
needs_review = refl

last_attempt_fails :
    (process_candidate keep shop (normal_options false 3 true) breaks failed_twice).1.statuses
    ≡ (
      7,
      record {
        status = failed;
        attempts = 3;
        last_error = some (parser_error []);
        completed = false;
      },
    )
      ∷ []
unfolding process_candidate process_claimed attempt_receipt run_attempt mark_processing mark_failed
    lookup upsert
last_attempt_fails = refl

failed_twice-IsLimited : IsLimited 3 failed_twice
unfolding lookup requested find_request
failed_twice-IsLimited = (λ sha id. tt, λ sha. ground arith)

-- A person's request for a third attempt.
abbrev asked_again : ProcessOptions
asked_again = record {
  refresh_ocr_cache = true;
  max_attempts = some 3;
  verify_source = true;
  reprocess_request_id = some 5;
}

process_candidate-IsLimited_example :
    IsLimited 3 (process_candidate keep shop asked_again breaks failed_twice).1
process_candidate-IsLimited_example =
    process_candidate-IsLimited keep 3 (omega arith) shop asked_again breaks failed_twice refl
      failed_twice-IsLimited

process_candidate-IsRecorded_example :
    IsRecorded keep shop failed_twice
      (process_candidate keep shop (normal_options false 3 true) breaks failed_twice)
process_candidate-IsRecorded_example =
    process_candidate-IsRecorded keep shop (normal_options false 3 true) breaks failed_twice

summary_counts_discovered_example :
    (s : BacklogSummary) × ((process_backlog keep true false
        (λ i. reads)
        (shop ∷ shop ∷ [])
        empty).0
      ≡ some s)
    × (s.discovered ≡ 2)
    × (counted s ≡ 2)
summary_counts_discovered_example =
    summary_counts_discovered keep false (λ i. reads) (shop ∷ shop ∷ []) empty

-- The receipt is known by its file, and was published before it failed.
abbrev known : BacklogDatabase ℕ
known = record failed_twice { receipts = (7, codes "shop.pdf") ∷ [] }

abbrev shop_message : IntakeMessage
shop_message = record {
  message_id = codes "receipt.v1:7";
  source_sha256 = 7;
  source_reference = codes "shop.pdf";
}

abbrev work_queue : Text
work_queue = codes "receipts.v1.work"

abbrev published : List IntakeEvent
published = reserve shop_message work_queue 4 []

held_before_retry : eligible published (shop_message ∷ []) work_queue ≡ ([], 1)
unfolding eligible is_held watched_queues remove_suffix any select
held_before_retry = refl

abbrev ready : RetryReady
ready = record { source_sha256 = 7; previous_status = failed; previous_attempts = 2 }

abbrev after_retry : BacklogDatabase ℕ × List IntakeEvent
after_retry = (reset_receipt_for_retry (codes "shop.pdf") (λ sha. true) 5 known published).1

resets :
    (reset_receipt_for_retry (codes "shop.pdf") (λ sha. true) 5 known published).0 ≡ returns ready
unfolding reset_receipt_for_retry reset_transaction matching lookup
resets = refl

reset_unblocks_example :
    ((r : StatusRow) × (lookup 7 known.statuses ≡ some r) × (is_unfinished r.status ≡ true))
    × (is_completed 7 after_retry.0 ≡ false)
    × (row_reached (some 3) (lookup 7 after_retry.0.statuses) ≡ false)
    × (is_held after_retry.1 work_queue (codes "receipt.v1:7") ≡ false)
    × ((j : ℕ)
        → lookup j after_retry.0.statuses
          ≡ (if 7 == j then some reset_row else lookup j known.statuses))
reset_unblocks_example =
    reset_unblocks (codes "shop.pdf") (λ sha. true) 5 known published ready after_retry
      (codes "receipt.v1:7") work_queue 2 resets refl ((λ h. (refl, omega arith)), tt)
