-- ===== src/Receipts/Backlog/Bounded.antt =====
-- receipts/backlog_ingest.py: rows that keep a limit on the attempts.
use home_budget_pipeline.Receipts.Backlog.Requests.{requested, AreWithin}
use home_budget_pipeline.Prelude.{
  ◌+◌, ◌<◌, List, is_none, ℕ, ◌≤◌, Bool, true, false, ◌&&◌, Option, none, some, ◌==◌, if◌then◌else◌,
  ◌≡◌, refl, sym, subst, arith,
}
use home_budget_pipeline.Prelude.Table.{lookup, upsert, lookup-upsert, Table}
use home_budget_pipeline.Receipts.Backlog.{
  RequestRow, reached, ProcessingStatus, StatusRow, BacklogError, BacklogDatabase, row_reached,
  processing_row, completed_row, failed_row,
}
use home_budget_pipeline.Receipts.Backlog.Process.{ProcessOptions}

-- A row has at most n attempts.
abbrev pub IsWithin : ℕ → Option StatusRow → Type 0
IsWithin n none = Unit
IsWithin n (some r) = r.attempts ≤ n

-- Every row has at most n attempts, and those that the requests for its receipt have counted.
abbrev pub IsBounded : ℕ → List RequestRow → Table StatusRow → Type 0
IsBounded n rows t = (sha : ℕ) → IsWithin (n + requested sha rows) (lookup sha t)

-- The limit on the tables: no request has counted more than n attempts, and no receipt has counted
-- more than n attempts besides those of requests.
abbrev pub IsLimited : {E : Type 0} → ℕ → BacklogDatabase E → Type 0
IsLimited n db = AreWithin n db.requests × IsBounded n db.requests db.statuses

pub IsWithin-if :
    (n : ℕ) (test : Bool) (x y : Option StatusRow)
    → (test ≡ true → IsWithin n x)
    → IsWithin n y
    → IsWithin n (if test then x else y)
IsWithin-if n true x y h k = h refl
IsWithin-if n false x y h k = k

pub IsWithin-le : (m n : ℕ) (o : Option StatusRow) → m ≤ n → IsWithin m o → IsWithin n o
IsWithin-le m n none h k = tt
IsWithin-le m n (some r) h k = omega (arith, h, k)

pub same_receipt : (a b : ℕ) → (a == b) ≡ true → a ≡ b
same_receipt a b h = ground arith

pub IsBounded-upsert :
    (n k : ℕ) (v : StatusRow) (rows : List RequestRow) (t : Table StatusRow)
    → v.attempts ≤ n + requested k rows
    → IsBounded n rows t
    → IsBounded n rows (upsert k v t)
IsBounded-upsert n k v rows t h bounded sha =
    subst (IsWithin (n + requested sha rows)) (sym (lookup-upsert k sha v t)) (
      IsWithin-if (n + requested sha rows) (k == sha) (some v) (lookup sha t)
        (λ e. subst (λ s. v.attempts ≤ n + requested s rows) (same_receipt k sha e) h)
        (bounded sha))

pub failed_row-le :
    (n : ℕ) (exc : BacklogError) (o : Option StatusRow)
    → 1 ≤ n
    → IsWithin n o
    → (failed_row exc o).attempts ≤ n
failed_row-le n exc none one h = one
failed_row-le n exc (some r) one h = h

pub completed_row-le :
    (n : ℕ) (status : ProcessingStatus) (o : Option StatusRow)
    → 1 ≤ n
    → IsWithin n o
    → (completed_row status o).attempts ≤ n
completed_row-le n status none one h = one
completed_row-le n status (some r) one h = h

-- Room for one more attempt.
abbrev pub HasRoom : ℕ → Option StatusRow → Type 0
HasRoom n none = 1 ≤ n
HasRoom n (some r) = r.attempts + 1 ≤ n

pub processing_row-le :
    (n : ℕ) (o : Option StatusRow) → HasRoom n o → (processing_row o).attempts ≤ n
processing_row-le n none h = h
processing_row-le n (some r) h = h

-- An attempt of the queue's own work starts below the limit.
pub room_below :
    (n m : ℕ) (o : Option StatusRow) → 1 ≤ n → row_reached (some n) o ≡ false → HasRoom (n + m) o
room_below n m none one h = omega (arith, one)
room_below n m (some r) one h = ground arith

-- The request has counted one attempt more.
pub room_requested :
    (n m : ℕ) (o : Option StatusRow) → 1 ≤ n → IsWithin n o → n + 1 ≤ m → HasRoom m o
room_requested n m none one h more = omega (arith, one, more)
room_requested n m (some r) one h more = omega (arith, h, more)

-- Without a request, the row of the receipt is below the limit.
pub own_limit :
    (o : ProcessOptions) (row : Option StatusRow) (n : ℕ)
    → o.max_attempts ≡ some n
    → o.reprocess_request_id ≡ none
    → (is_none o.reprocess_request_id && row_reached o.max_attempts row) ≡ false
    → row_reached (some n) row ≡ false
own_limit o row n limit request h =
    subst (λ l. row_reached l row ≡ false) limit
      (subst (λ q. (is_none q && row_reached o.max_attempts row) ≡ false) request h)

-- A request that has not reached its limit has an attempt left.
pub attempt_left : (n a : ℕ) → reached (some n) a ≡ false → a < n
attempt_left n a h = ground arith
