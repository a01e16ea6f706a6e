-- ===== src/Receipts/Backlog/Requests.antt =====
-- receipts/backlog_ingest.py: the attempts that the requests for a receipt count.
use home_budget_pipeline.Prelude.{
  ℕ, ◌+◌, ◌≤◌, ◌<◌, Bool, true, false, ◌&&◌, Option, none, some, List, [], ◌∷◌, ◌==◌, if◌then◌else◌,
  ◌≡◌, refl, sym, subst, arith,
}
use home_budget_pipeline.Prelude.Table.{map_some}
use home_budget_pipeline.Receipts.Backlog.{
  RequestRow, is_request, find_request, update_request, insert_request, raise_attempts,
  complete_row,
}

-- The attempts that the requests for a receipt have counted.
unfoldable pub requested : ℕ → List RequestRow → ℕ
requested sha [] = 0
requested sha (r ∷ rows) =
    let rest = requested sha rows in if r.source_sha256 == sha then r.attempts + rest else rest

abbrev pub RequestWithin : ℕ → Option RequestRow → Type 0
RequestWithin n none = Unit
RequestWithin n (some r) = r.attempts ≤ n

-- No request has counted more than n attempts.
abbrev pub AreWithin : ℕ → List RequestRow → Type 0
AreWithin n rows = (sha id : ℕ) → RequestWithin n (find_request sha id rows)

find-update :
    (f : RequestRow → RequestRow) (sha id k l : ℕ) (rows : List RequestRow)
    → ((r : RequestRow) → is_request k l (f r) ≡ is_request k l r)
    → find_request k l (update_request sha id f rows)
      ≡ (if sha == k && id == l then map_some f (find_request k l rows) else find_request k l rows)
unfolding find_request update_request
find-update f sha id k l [] same = ground arith
find-update f sha id k l (r ∷ rows) same =
    ground (arith, find-update f sha id k l rows same, same r)

RequestWithin-if :
    (n : ℕ) (test : Bool) (x y : Option RequestRow)
    → (test ≡ true → RequestWithin n x)
    → RequestWithin n y
    → RequestWithin n (if test then x else y)
RequestWithin-if n true x y h k = h refl
RequestWithin-if n false x y h k = k

raised_within :
    (n : ℕ) (o : Option RequestRow) (row : RequestRow)
    → o ≡ some row
    → row.attempts < n
    → RequestWithin n (map_some raise_attempts o)
raised_within n none row e h = cc
raised_within n (some r) row e h = ground arith

completed_within :
    (n : ℕ) (o : Option RequestRow) → RequestWithin n o → RequestWithin n (map_some complete_row o)
completed_within n none h = tt
completed_within n (some r) h = h

same_pair : (sha id k l : ℕ) → (sha == k && id == l) ≡ true → (sha ≡ k) × (id ≡ l)
same_pair sha id k l h = ground arith

pub AreWithin-raised :
    (n sha id : ℕ) (row : RequestRow) (rows : List RequestRow)
    → find_request sha id rows ≡ some row
    → row.attempts < n
    → AreWithin n rows
    → AreWithin n (update_request sha id raise_attempts rows)
AreWithin-raised n sha id row rows found below within k l =
    subst (RequestWithin n) (sym (find-update raise_attempts sha id k l rows (λ r. refl))) (
      RequestWithin-if n (sha == k && id == l) _ _
        (λ e.
          let (x, y) = same_pair sha id k l e in
          raised_within n (find_request k l rows) row (rw (← x, ← y) found) below)
        (within k l))

pub AreWithin-completed :
    (n sha id : ℕ) (rows : List RequestRow)
    → AreWithin n rows
    → AreWithin n (update_request sha id complete_row rows)
AreWithin-completed n sha id rows within k l =
    subst (RequestWithin n) (sym (find-update complete_row sha id k l rows (λ r. refl))) (
      RequestWithin-if n (sha == k && id == l) _ _
        (λ e. completed_within n (find_request k l rows) (within k l)) (within k l))

pub requested-completed :
    (sha id k : ℕ) (rows : List RequestRow)
    → requested k (update_request sha id complete_row rows) ≡ requested k rows
unfolding requested update_request
requested-completed sha id k [] = refl
requested-completed sha id k (r ∷ rows) = ground (arith, requested-completed sha id k rows)

pub requested-raised_le :
    (sha id k : ℕ) (rows : List RequestRow)
    → requested k rows ≤ requested k (update_request sha id raise_attempts rows)
unfolding requested update_request
requested-raised_le sha id k [] = omega arith
requested-raised_le sha id k (r ∷ rows) = ground (arith, requested-raised_le sha id k rows)

-- An attempt of a request is counted for its receipt.
pub requested-raised :
    (sha id : ℕ) (row : RequestRow) (rows : List RequestRow)
    → find_request sha id rows ≡ some row
    → requested sha rows + 1 ≤ requested sha (update_request sha id raise_attempts rows)
unfolding requested update_request find_request
requested-raised sha id row [] h = cc
requested-raised sha id row (r ∷ rows) h =
    ground (arith, requested-raised sha id row rows, requested-raised_le sha id sha rows)

abbrev new_request : ℕ → ℕ → RequestRow
new_request sha id = record {
  source_sha256 = sha;
  request_id = id;
  attempts = 0;
  completed = false;
}

insert-found :
    (sha id : ℕ) (rows : List RequestRow) (r : RequestRow)
    → find_request sha id rows ≡ some r
    → insert_request sha id rows ≡ (rows, r)
unfolding insert_request
insert-found sha id rows r e = rw (e, insert_request) refl

insert-new :
    (sha id : ℕ) (rows : List RequestRow)
    → find_request sha id rows ≡ none
    → insert_request sha id rows ≡ (new_request sha id ∷ rows, new_request sha id)
unfolding insert_request
insert-new sha id rows e = rw (e, insert_request) refl

abbrev pub IsInserted : ℕ → ℕ → ℕ → List RequestRow → List RequestRow × RequestRow → Type 0
IsInserted n sha id rows (kept, row) =
    (find_request sha id kept ≡ some row)
    × AreWithin n kept
    × ((k : ℕ) → requested k kept ≡ requested k rows)

inserts_new :
    (n sha id : ℕ) (rows : List RequestRow)
    → AreWithin n rows
    → IsInserted n sha id rows (new_request sha id ∷ rows, new_request sha id)
unfolding find_request requested
inserts_new n sha id rows within = (
  ground arith,
  λ k l.
      RequestWithin-if n (is_request k l (new_request sha id)) (some (new_request sha id))
        (find_request k l rows) (λ e. omega arith) (within k l),
  λ k. ground arith,
)

-- The row of a request that is read is in the table, and one that is inserted counts no attempt.
pub inserted :
    (n sha id : ℕ) (rows : List RequestRow)
    → AreWithin n rows
    → IsInserted n sha id rows (insert_request sha id rows)
inserted n sha id rows within = by_row (find_request sha id rows) refl
  where
    by_row :
        (o : Option RequestRow)
        → find_request sha id rows ≡ o
        → IsInserted n sha id rows (insert_request sha id rows)
    by_row (some r) e =
        subst (IsInserted n sha id rows) (sym (insert-found sha id rows r e)) (e, within, λ k. refl)
    by_row none e =
        subst (IsInserted n sha id rows) (sym (insert-new sha id rows e))
          (inserts_new n sha id rows within)
