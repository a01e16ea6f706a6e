-- ===== src/Receipts/Review/Resolve/Writes.antt =====
-- The steps of an applied confirmation: what each has checked or writes.
use home_budget_pipeline.Prelude.{
  ℕ, ◌≡◌, ◌<◌, refl, ◌⊎◌, inl, inr, Bool, true, false, not, ◌&&◌, ◌||◌, Option, none, some, List,
  [], ◌∷◌, leb, ◌==◌, if◌then◌else◌, arith, Bool-cases,
}
use home_budget_pipeline.Prelude.Text.{Text}
use home_budget_pipeline.Prelude.Table.{lookup, update, map_some}
use home_budget_pipeline.Prelude.Result.{Result, raises, returns, require-inversion}
use home_budget_pipeline.Receipts.Duplicates.{DuplicateScore}
use home_budget_pipeline.Receipts.Duplicates.Score.{score}
use home_budget_pipeline.Receipts.Duplicates.Store.{
  DuplicateLink, DuplicateTables, DuplicateResolution, EvidenceRow, find_link, upsert_link, is_pair,
  confirm_link, resolve_link, ordered_pair, link_to, link_for, confirmed, manual_review, StoreError,
}
use home_budget_pipeline.Receipts.Review.{
  ReviewState, ReviewRequest, ReviewOutcome, unchanged, read_state, read_sorted,
  different_ids_required, repeat_decision, check_decision, check_confirmation, both_found,
  reviewed_score, override_low_score, fingerprint, from_store, same_expense, free_for,
  no_reassignment,
}
use home_budget_pipeline.Receipts.Review.Resolve.{store_decision}

pub find_link-upsert :
    (left right : ℕ) (row : DuplicateLink) (links : List DuplicateLink)
    → is_pair left right row ≡ true
    → find_link left right (upsert_link left right row (λ _. row) links) ≡ some row
unfolding find_link upsert_link
find_link-upsert left right row [] h = ground arith
find_link-upsert left right row (l ∷ links) h =
    ground (arith, find_link-upsert left right row links h)

both_found-ids :
    (low high : ℕ) (a b : Option EvidenceRow) (d : Option DuplicateLink) (before : ReviewState)
    → both_found low high a b d ≡ returns before
    → (before.first_id ≡ low) × (before.second_id ≡ high)
both_found-ids low high (some a) (some b) d before h = ground arith
both_found-ids low high none b d before h = cc
both_found-ids low high (some a) none d before h = cc

read_sorted-ordered :
    (low high : ℕ) (t : DuplicateTables) (before : ReviewState)
    → leb low high ≡ true
    → read_sorted low high t ≡ returns before
    → before.first_id < before.second_id
unfolding read_sorted
read_sorted-ordered low high t before le h =
    let (ok, found) =
      require-inversion (not (leb low 0 || low == high)) different_ids_required _ h in
    let ids =
      both_found-ids low high (lookup low t.evidence) (lookup high t.evidence)
        (find_link low high t.links) before found in
    ground arith

pub read_state-ordered :
    (left right : ℕ) (t : DuplicateTables) (before : ReviewState)
    → read_state left right t ≡ returns before
    → before.first_id < before.second_id
unfolding read_state
read_state-ordered left right t before h = elim (Bool-cases (leb left right)) [
  | inl e ↦ read_sorted-ordered left right t before e (ground arith)
  | inr e ↦ read_sorted-ordered right left t before (ground arith) (ground arith)
]

pub reviewed_score-ids :
    (before : ReviewState)
    → ((reviewed_score before).left_evidence_id ≡ before.first_id)
      × ((reviewed_score before).right_evidence_id ≡ before.second_id)
unfolding reviewed_score override_low_score score fingerprint
reviewed_score-ids before = ground arith

-- The tables after a confirmation of an ordered pair.
abbrev pub linked : ℕ → ℕ → ℕ → DuplicateLink → DuplicateTables → DuplicateTables
linked left right expense row t = record {
  evidence = update right (link_to expense) (update left (link_to expense) t.evidence);
  links = upsert_link left right row (λ _. row) t.links;
}

ordered_pair-ordered :
    (left right : ℕ) → left < right → ordered_pair left right ≡ returns (left, right)
unfolding ordered_pair
ordered_pair-ordered left right h = ground arith

pub confirm_link-inversion :
    (s : DuplicateScore) (x : ℕ) (t t' : DuplicateTables) (r : DuplicateResolution)
    → s.left_evidence_id < s.right_evidence_id
    → confirm_link s x t ≡ returns (r, t')
    → (t'
        ≡ linked s.left_evidence_id s.right_evidence_id x
            (link_for s.left_evidence_id s.right_evidence_id s
              (some x)
              confirmed
              (some manual_review))
            t)
      × (r.resolution_status ≡ confirmed)
unfolding confirm_link resolve_link
confirm_link-inversion s x t t' r lt h =
    let o = ordered_pair-ordered s.left_evidence_id s.right_evidence_id lt in ground arith

pub from_store-returns {ℓ} :
    {A : Type ℓ} (c : Result StoreError A) (a : A) → from_store c ≡ returns a → c ≡ returns a
from_store-returns (returns b) a h = ground arith
from_store-returns (raises e) a h = cc

-- One of the documents had the expense, and none had another one.
abbrev pub IsFree : ℕ → ReviewState → Type 0
IsFree x before =
    ((before.first.expense_pk ≡ some x) ⊎ (before.second.expense_pk ≡ some x))
    × ((before.first.expense_pk ≡ none) ⊎ (before.first.expense_pk ≡ some x))
    × ((before.second.expense_pk ≡ none) ⊎ (before.second.expense_pk ≡ some x))

free-cases :
    (x : ℕ) (a b : Option ℕ)
    → ((same_expense a (some x) || same_expense b (some x))
        && free_for (some x) a
        && free_for (some x) b)
      ≡ true
    → ((a ≡ some x) ⊎ (b ≡ some x)) × ((a ≡ none) ⊎ (a ≡ some x)) × ((b ≡ none) ⊎ (b ≡ some x))
free-cases x a b h = ground arith

pub check_confirmation-IsFree :
    (x : ℕ) (before : ReviewState) (expenses : List ℕ) (u : Unit {0})
    → check_confirmation (some x) before expenses ≡ returns u
    → IsFree x before
unfolding check_confirmation
check_confirmation-IsFree x before expenses u h =
    let a = before.first.expense_pk in
    let b = before.second.expense_pk in
    let (test, _) =
      require-inversion
        ((same_expense a (some x) || same_expense b (some x))
          && free_for (some x) a
          && free_for (some x) b)
        no_reassignment _ h in
    free-cases x a b test

pub link_twice :
    (x : ℕ) (b c : Bool) (o : Option EvidenceRow)
    → (if c
        then map_some (link_to x) (if b then map_some (link_to x) o else o)
        else if b
        then map_some (link_to x) o
        else o)
      ≡ (if b || c then map_some (link_to x) o else o)
link_twice x true true none = refl
link_twice x true true (some e) = refl
link_twice x true false o = refl
link_twice x false true o = refl
link_twice x false false o = refl

pub store-confirm :
    (x : ℕ) (reject : Bool) (expense : Option ℕ) (s : DuplicateScore) (t : DuplicateTables)
    → reject ≡ false
    → expense ≡ some x
    → store_decision reject expense s t ≡ from_store (confirm_link s x t)
unfolding store_decision
store-confirm x reject expense s t h k = rw (h, k) refl

pub repeat-not_applied :
    (q : ReviewRequest) (v : Text) (before : ReviewState) (d : DuplicateLink) (o : ReviewOutcome)
    → repeat_decision q v before d ≡ returns o
    → o ≡ unchanged v d.canonical_expense_pk
unfolding repeat_decision
repeat-not_applied q v before d o h = ground arith

pub check-confirmation :
    (x : ℕ) (q : ReviewRequest) (before : ReviewState) (expenses : List ℕ) (u : Unit {0})
    → q.reject ≡ false
    → q.expense ≡ some x
    → check_decision q before expenses ≡ returns u
    → check_confirmation (some x) before expenses ≡ returns u
unfolding check_decision
check-confirmation x q before expenses u accept expense h = ground arith
