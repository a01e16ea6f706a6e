-- ===== src/Lib.antt =====
-- Home budget pipeline: models and proofs of its decision logic.
--
-- The program imports receipts and bank transactions into a database, finds the category of each
-- item, links transactions to purchases, and finds receipts of one purchase. People review what the
-- rules leave open, and a change that a person saves is checked against the version that was seen.
-- Each part is deterministic code around database access; modelled is that code, with the tables
-- that it reads and writes as explicit state and with each exception as a value.
--
-- The parts, and the files that model them (paths below src/home_budget_pipeline/):
--   Transactions/Matching     transactions/reconciliation.py: score, decide, summarize
--   Transactions/Ownership    transactions/ownership.py: who owns the card or the account
--   Transactions/Enrichment   transactions/integration.py: save_decision, enrich_matched_expense
--   Transactions/Allocations  transactions/workflows.py: normalize_allocations, save_allocations
--   Reconciliation            reconciliation/processing.py: the checks of one purchase
--   DataQuality               data_quality/required_fields.py: the required fields
--   Receipts/Message          receipts/message.py: the checks of a message, to_bytes, from_bytes
--   Receipts/Delivery         receipts/queue_ingest.py: handle_worker_delivery, handle_delivery
--   Receipts/Delivery/Broker  the queues that declare_topology declares, as a step relation
--   Receipts/Intake           receipts/publication_guard.py: eligible, reserve, release
--   Receipts/Backlog          receipts/backlog_ingest.py: process_candidate (Process), process_backlog
--                             (Runs), reset_receipt_for_retry (Retry)
--   Receipts/Duplicates       receipts/deduplication.py (Score) and deduplication_store.py (Store)
--   Receipts/Review           receipts/duplicate_review.py: read_state, resolve
--   Receipts/Allocation       receipts/allocation.py: money, assess
--   Receipts/Sources          receipts/source_reconciliation.py: plan, and the writes to a row
--   ModelTasks                model_collaboration_queue.py: add and execute of the task store
--   Categorization/Tables     categorization/logic.py: its tables, word for word
--   Categorization/Logic      categorization/logic.py: rules, keywords, deterministic_category
--   Categorization/Pipeline   categorization/pipeline.py and catalog.py: categorize, approve_mapping
--   Categorization/Store      categorization/store.py, and approve_mapping with a store
--   Categorization/Processing categorization/processing.py: categorize_expense
-- Prelude has what they share: lists, sets, texts and their normal forms, integers, decimals, tables
-- of a database, calls that raise, a stable ranking, and the ratio of Python's difflib.
--
-- A function keeps the name that it has in the program, and a record the names of its fields. A
-- matching decision (Transactions/Matching) is what an enrichment stores (Transactions/Enrichment);
-- a review (Receipts/Review) scores a pair (Receipts/Duplicates/Score) and writes through the store
-- (Receipts/Duplicates/Store); the pipeline asks the rules and the keywords (Categorization/Logic),
-- and saves what a person approves (Categorization/Store). A message (Receipts/Message) is reserved
-- (Receipts/Intake), published, and handled until it is answered or dead (Receipts/Delivery); the
-- attempts at its receipt are counted (Receipts/Backlog), and a reset releases its reservation.
--
-- Numbers: amounts are integers of cents or of another common unit, dates are ordinals, datetimes
-- microseconds, keys natural numbers where the database numbers them from 1. A floating point
-- number that the program compares with a threshold is an exact fraction. All loops are structural
-- recursion, but for difflib's search for matching blocks, whose fuel is the length of the texts
-- and is never used up, since each step removes a block that is not empty.
--
-- The broker is a step relation: each step is a delivery, with what becomes of each call of the
-- handler, or the end of a delay in the retry queue. It returns, delays and dead-letters messages as
-- the arguments of the declared queues say; a transfer that the broker makes itself arrives once.
-- A message body is its bytes, which for a published message are the JSON text of its fields, and
-- beside them the fields that are written in them, whose strings `loads` reads as json.loads does: a
-- pair of surrogates is one code. That the bytes spell these fields is the syntax of JSON, which is
-- not modelled.
--
-- Parameters: the outcome of the work on a message, the parser and the evidence store of the
-- backlog, the handler of a model task, the hash of a reviewed state, the category catalogue, which
-- a configuration file gives, the files of the source folder, the fallback by a language model, and
-- the view that adds up the categories of an expense.
--
-- Not modelled: the parser of JSON, database locks beyond whether they are got, text recognition
-- and the parsers of its text, the web application, imports of files, SQL beyond the statements of
-- the modelled operations, times of writes, letters outside ASCII in lower case, and difflib's rule
-- for texts of 200 code points and more.
pub mod Prelude
pub mod Transactions
pub mod Categorization
pub mod Reconciliation
pub mod DataQuality
pub mod Receipts
pub mod ModelTasks
