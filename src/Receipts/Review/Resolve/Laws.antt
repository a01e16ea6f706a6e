-- ===== src/Receipts/Review/Resolve/Laws.antt =====
-- What a human decision on a pair changes.
use home_budget_pipeline.Prelude.{
  ℕ, is_some, some-inj, ◌≡◌, refl, ◌≢◌, ◌⊎◌, inl, inr, true, false, Option, none, some,
  if◌then◌else◌, arith,
}
use home_budget_pipeline.Prelude.Text.{Text}
use home_budget_pipeline.Prelude.Result.{Result, raises, returns, ◌>>=◌, ◌>>◌}
use home_budget_pipeline.Receipts.Duplicates.Store.{DuplicateLink, LinkStatus, pending}
use home_budget_pipeline.Receipts.Review.{
  ReviewState, ReviewDatabase, ReviewRequest, ReviewOutcome, preview, ReviewError, read_state,
  is_resolved, check_decision,
}
use home_budget_pipeline.Receipts.Review.Resolve.{
  check_request, resolved_only, apply_decision, resolve_with, resolve_body, commit_or_rollback,
  resolve,
}

module _ (version : ReviewState → Text) where
  -- A body that returns the database as it was, or raises, changes nothing.
  Keeps : ReviewDatabase → Result ReviewError (ReviewOutcome × ReviewDatabase) → Type 0
  Keeps db r = (commit_or_rollback version db r).1 ≡ db

  keeps-repeat :
      (q : ReviewRequest) (before : ReviewState) (db : ReviewDatabase)
      (r : Result ReviewError ReviewOutcome)
      → (commit_or_rollback version db (r >>= λ o. returns (o, db))).1 ≡ db
  keeps-repeat q before db (raises e) = refl
  keeps-repeat q before db (returns o) = refl

  keeps-check :
      (check : Result ReviewError (Unit {0})) (db : ReviewDatabase)
      (rest : Result ReviewError (ReviewOutcome × ReviewDatabase))
      → (commit_or_rollback version db rest).1 ≡ db
      → (commit_or_rollback version db (check >> rest)).1 ≡ db
  keeps-check (raises e) db rest h = refl
  keeps-check (returns u) db rest h = h

  keeps-bind :
      (call : Result ReviewError ReviewState) (db : ReviewDatabase)
      (next : ReviewState → Result ReviewError (ReviewOutcome × ReviewDatabase))
      → ((s : ReviewState) → call ≡ returns s → (commit_or_rollback version db (next s)).1 ≡ db)
      → (commit_or_rollback version db (call >>= next)).1 ≡ db
  keeps-bind (raises e) db next h = refl
  keeps-bind (returns s) db next h = h s refl

  preview-keeps :
      (left right : ℕ) (q : ReviewRequest) (before : ReviewState) (db : ReviewDatabase)
      (d : Option DuplicateLink)
      → (q.apply ≡ false) ⊎ (is_some d ≡ true)
      → (commit_or_rollback version db (resolve_with version left right q before db d)).1 ≡ db
  unfolding resolve_with
  preview-keeps left right q before db (some d) h = keeps-repeat q before db _
  preview-keeps left right q before db none (inl h) =
      keeps-check (check_decision q before db.expenses) db
        (if q.apply
          then apply_decision version left right q before db
          else returns (preview (version before) q.expense q.reject, db))
        (rw h refl)
  preview-keeps left right q before db none (inr h) = cc

  resolve-keeps :
      (left right : ℕ) (q : ReviewRequest) (db : ReviewDatabase)
      → ((s : ReviewState)
          → read_state left right db.tables ≡ returns s
          → (q.apply ≡ false) ⊎ (is_some (resolved_only s.decision) ≡ true))
      → (resolve version left right q db).1 ≡ db
  unfolding resolve resolve_body
  resolve-keeps left right q db h = keeps-check (check_request q) db _ (
      keeps-bind (read_state left right db.tables) db _
        (λ s e. preview-keeps left right q s db (resolved_only s.decision) (h s e)))

  -- A preview changes nothing.
  preview_changes_nothing :
      (left right : ℕ) (q : ReviewRequest) (db : ReviewDatabase)
      → q.apply ≡ false
      → (resolve version left right q db).1 ≡ db
  preview_changes_nothing left right q db h = resolve-keeps left right q db (λ s e. inl h)

  resolved_final : (s : LinkStatus) → s ≢ pending → is_resolved s ≡ true
  resolved_final s h = ground arith

  resolved_only-some :
      (o : Option DuplicateLink) (d : DuplicateLink)
      → o ≡ some d
      → d.resolution_status ≢ pending
      → is_some (resolved_only o) ≡ true
  resolved_only-some none d e h = cc
  resolved_only-some (some x) d e h =
      let r : is_resolved x.resolution_status ≡ true =
        rw (some-inj e) (resolved_final d.resolution_status h) in
      rw r refl

  -- Once a pair has been linked, confirmed or rejected, no call of `resolve` changes the database,
  -- whatever it asks.
  pub resolved_pair_stays :
      (left right : ℕ) (q : ReviewRequest) (db : ReviewDatabase) (before : ReviewState)
      (d : DuplicateLink)
      → read_state left right db.tables ≡ returns before
      → before.decision ≡ some d
      → d.resolution_status ≢ pending
      → (resolve version left right q db).1 ≡ db
  resolved_pair_stays left right q db before d read found final =
      resolve-keeps left right q db (λ s e.
        let same : s ≡ before = cc in
        inr (rw same (resolved_only-some before.decision d found final)))
