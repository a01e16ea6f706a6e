-- ===== src/Receipts/Review/Resolve/Confirm.antt =====
-- What an applied confirmation has checked and what it writes.
use home_budget_pipeline.Prelude.{
  ℕ, ◌≡◌, ◌<◌, refl, false, ◌||◌, Option, none, some, ◌==◌, if◌then◌else◌, arith, sym, ◌∙◌,
}
use home_budget_pipeline.Prelude.Text.{Text, ◌==ₜ◌, text_eq}
use home_budget_pipeline.Prelude.Table.{lookup, update, lookup-update, map_some}
use home_budget_pipeline.Prelude.Result.{Result, raises, returns, bind-inversion, require-inversion}
use home_budget_pipeline.Receipts.Duplicates.{DuplicateScore}
use home_budget_pipeline.Receipts.Duplicates.Store.{
  DuplicateLink, DuplicateTables, DuplicateResolution, find_link, confirm_link, link_to, link_for,
  confirmed, manual_review,
}
use home_budget_pipeline.Receipts.Review.{
  ReviewState, ReviewDatabase, ReviewRequest, ReviewOutcome, applied, ReviewError, read_state,
  repeat_decision, check_decision, reviewed_score, version_changed,
}
use home_budget_pipeline.Receipts.Review.Resolve.{
  check_request, store_decision, resolved_only, apply_decision, resolve_with, resolve_body,
  commit_or_rollback, resolve,
}
use home_budget_pipeline.Receipts.Review.Resolve.Writes.{
  find_link-upsert, read_state-ordered, reviewed_score-ids, linked, confirm_link-inversion,
  from_store-returns, IsFree, check_confirmation-IsFree, link_twice, store-confirm,
  repeat-not_applied, check-confirmation,
}

module _ (version : ReviewState → Text) where
  commit-inversion :
      (db db' : ReviewDatabase) (body : Result ReviewError (ReviewOutcome × ReviewDatabase))
      (o : ReviewOutcome)
      → commit_or_rollback version db body ≡ (returns o, db')
      → body ≡ returns (o, db')
  commit-inversion db db' (raises e) o h = cc
  commit-inversion db db' (returns (o', d)) o h = ground arith

  -- What the writes of a confirmation leave in the tables.
  abbrev pub IsConfirmed : ℕ → ReviewState → DuplicateTables → DuplicateTables → Type 0
  IsConfirmed x before old new =
      ((k : ℕ)
        → lookup k new.evidence ≡ (
            if before.first_id == k || before.second_id == k
            then map_some (link_to x) (lookup k old.evidence)
            else lookup k old.evidence))
      × (l : DuplicateLink) × (find_link before.first_id before.second_id new.links ≡ some l)
      × (l.resolution_status ≡ confirmed)
      × (l.canonical_expense_pk ≡ some x)

  linked-IsConfirmed :
      (x : ℕ) (before : ReviewState) (old : DuplicateTables) (s : DuplicateScore)
      → IsConfirmed x before old (
          linked before.first_id before.second_id x
            (link_for before.first_id before.second_id s (some x) confirmed (some manual_review))
            old)
  linked-IsConfirmed x before old s = (
    λ k.
        rw
          (
            lookup-update before.second_id k (link_to x)
                (update before.first_id (link_to x) old.evidence),
            lookup-update before.first_id k (link_to x) old.evidence,
          )
          (link_twice x (before.first_id == k) (before.second_id == k) (lookup k old.evidence)),
    link_for before.first_id before.second_id s (some x) confirmed (some manual_review),
    find_link-upsert before.first_id before.second_id
        (link_for before.first_id before.second_id s (some x) confirmed (some manual_review))
        old.links (ground arith),
    refl,
    refl,
  )

  apply-confirms :
      (left right : ℕ) (q : ReviewRequest) (before : ReviewState) (db db' : ReviewDatabase) (x : ℕ)
      (o : ReviewOutcome)
      → before.first_id < before.second_id
      → q.reject ≡ false
      → q.expense ≡ some x
      → apply_decision version left right q before db ≡ returns (o, db')
      → (version before ≡ q.expected_version) × IsConfirmed x before db.tables db'.tables
  unfolding apply_decision
  apply-confirms left right q before db db' x o lt accept expense h =
      let s = reviewed_score before in
      let (seen, rest) =
        require-inversion (version before ==ₜ q.expected_version) version_changed _ h in
      let ((r, t), stored, rest') =
        bind-inversion (store_decision q.reject q.expense s db.tables) _ rest in
      let (after, _, done) = bind-inversion (read_state left right t) _ rest' in
      let ids = reviewed_score-ids before in
      let c = confirm_link-inversion s x db.tables t r (rw (ids.0, ids.1) lt) (
        from_store-returns (confirm_link s x db.tables) (r, t)
          (sym (store-confirm x q.reject q.expense s db.tables accept expense) ∙ stored)) in
      let e : db'.tables ≡ t = ground arith in
      (
        text_eq (version before) q.expected_version seen,
        rw (e, c.0, ids.0, ids.1) (linked-IsConfirmed x before db.tables s),
      )

  with-inversion :
      (left right : ℕ) (q : ReviewRequest) (before : ReviewState) (db db' : ReviewDatabase)
      (d : Option DuplicateLink) (r : DuplicateResolution)
      → resolve_with version left right q before db d ≡ returns (applied r, db')
      → (u : Unit {0}) × (check_decision q before db.expenses ≡ returns u)
        × (apply_decision version left right q before db ≡ returns (applied r, db'))
  unfolding resolve_with
  with-inversion left right q before db db' (some d) r h =
      let (o, e, done) = bind-inversion (repeat_decision q (version before) before d) _ h in
      let k = repeat-not_applied q (version before) before d o e in ground arith
  with-inversion left right q before db db' none r h =
      let (u, e, done) = bind-inversion (check_decision q before db.expenses) _ h in
      (u, e, ground arith)

  -- An applied confirmation was based on the version that the reviewer saw. One of the two documents
  -- had the chosen expense and none had another. Afterwards both have it, no other document has
  -- changed, and the decision of the pair is stored as confirmed for that expense.
  pub confirmation_links_pair :
      (left right : ℕ) (q : ReviewRequest) (db db' : ReviewDatabase) (x : ℕ)
      (r : DuplicateResolution)
      → q.reject ≡ false
      → q.expense ≡ some x
      → resolve version left right q db ≡ (returns (applied r), db')
      → (before : ReviewState) × (read_state left right db.tables ≡ returns before)
        × (version before ≡ q.expected_version)
        × IsFree x before
        × IsConfirmed x before db.tables db'.tables
  unfolding resolve resolve_body
  confirmation_links_pair left right q db db' x r accept expense h =
      let body = commit-inversion db db' (resolve_body version left right q db) (applied r) h in
      let (u, _, b) = bind-inversion (check_request q) _ body in
      let (before, read, b') = bind-inversion (read_state left right db.tables) _ b in
      let (u', check, write) =
        with-inversion left right q before db db' (resolved_only before.decision) r b' in
      let (seen, new) =
        apply-confirms left right q before db db' x (applied r)
          (read_state-ordered left right db.tables before read) accept expense write in
      (
        before,
        read,
        seen,
        check_confirmation-IsFree x before db.expenses u'
            (check-confirmation x q before db.expenses u' accept expense check),
        new,
      )
