-- ===== src/Receipts/Duplicates/Store/Decisions.antt =====
-- What a new score does to the decisions that are there.
use home_budget_pipeline.Prelude.{
  ℕ, ◌≡◌, refl, ◌⊎◌, inl, inr, Bool, true, false, Option, none, some, List, [], ◌∷◌, if◌then◌else◌,
  arith, some-inj, ap, subst, sym,
}
use home_budget_pipeline.Prelude.Result.{returns, bind-inversion}
use home_budget_pipeline.Receipts.Duplicates.{DuplicateScore}
use home_budget_pipeline.Receipts.Duplicates.Store.{
  DuplicateLink, DuplicateTables, pending, ordered_pair, is_pair, find_link, upsert_link, link_for,
  rescore, save_score,
}

Kept : (DuplicateLink → DuplicateLink) → DuplicateLink → Option DuplicateLink → Type 0
Kept change d o = (o ≡ some d) ⊎ (o ≡ some (change d))

Kept-here :
    (p : Bool) (change : DuplicateLink → DuplicateLink) (x d : DuplicateLink)
    (rest : Option DuplicateLink)
    → (if p then some x else rest) ≡ some d
    → Kept change d (if p then some (change x) else rest)
unfolding Kept
Kept-here true change x d rest h = inr (ap (λ y. some (change y)) (some-inj h))
Kept-here false change x d rest h = inl h

Kept-later :
    (p : Bool) (change : DuplicateLink → DuplicateLink) (x d : DuplicateLink)
    (rest rest' : Option DuplicateLink)
    → (if p then some x else rest) ≡ some d
    → (rest ≡ some d → Kept change d rest')
    → Kept change d (if p then some x else rest')
unfolding Kept
Kept-later true change x d rest rest' h k = inl h
Kept-later false change x d rest rest' h k = k h

find_link-if :
    (l r : ℕ) (q : Bool) (xs ys : List DuplicateLink)
    → find_link l r (if q then xs else ys) ≡ (if q then find_link l r xs else find_link l r ys)
find_link-if l r true xs ys = refl
find_link-if l r false xs ys = refl

if-Kept :
    (q : Bool) (change : DuplicateLink → DuplicateLink) (d : DuplicateLink)
    (a b : Option DuplicateLink)
    → Kept change d a
    → Kept change d b
    → Kept change d (if q then a else b)
if-Kept true change d a b h k = h
if-Kept false change d a b h k = k

find_link-upsert :
    (l r a b : ℕ) (new : DuplicateLink) (change : DuplicateLink → DuplicateLink)
    (links : List DuplicateLink) (d : DuplicateLink)
    → ((x : DuplicateLink) → is_pair l r (change x) ≡ is_pair l r x)
    → find_link l r links ≡ some d
    → Kept change d (find_link l r (upsert_link a b new change links))
unfolding find_link upsert_link
find_link-upsert l r a b new change [] d h k = cc
find_link-upsert l r a b new change (x ∷ links) d h k =
    let rest = find_link l r links in
    let here : Kept change d (if is_pair l r (change x) then some (change x) else rest) =
      rw (h x) (Kept-here (is_pair l r x) change x d rest k) in
    let later : Kept change d
        (if is_pair l r x then some x else find_link l r (upsert_link a b new change links)) =
      Kept-later (is_pair l r x) change x d rest _ k
        (λ e. find_link-upsert l r a b new change links d h e) in
    subst (Kept change d)
      (sym (
        find_link-if l r (is_pair a b x) (change x ∷ links) (x ∷ upsert_link a b new change links)))
      (if-Kept (is_pair a b x) change d _ _ here later)

-- A new score keeps every decision: a pair that has a link has one afterwards, with the same status,
-- source and expense, and no document is linked to another expense.
pub save_score_keeps_decisions :
    (s : DuplicateScore) (t t' : DuplicateTables) (l r : ℕ) (d : DuplicateLink)
    → save_score s t ≡ returns t'
    → find_link l r t.links ≡ some d
    → (t'.evidence ≡ t.evidence)
      × (e : DuplicateLink) × (find_link l r t'.links ≡ some e)
      × (e.resolution_status ≡ d.resolution_status)
      × (e.resolution_source ≡ d.resolution_source)
      × (e.canonical_expense_pk ≡ d.canonical_expense_pk)
unfolding save_score Kept
save_score_keeps_decisions s t t' l r d done found =
    let ((a, b), _, e) =
      bind-inversion (ordered_pair s.left_evidence_id s.right_evidence_id) _ done in
    let tables : record t {
      links = upsert_link a b (link_for a b s none pending none) (rescore s) t.links;
    }
        ≡ t' =
      ground arith in
    subst
      (λ (u : DuplicateTables).
        (u.evidence ≡ t.evidence)
        × (e : DuplicateLink) × (find_link l r u.links ≡ some e)
        × (e.resolution_status ≡ d.resolution_status)
        × (e.resolution_source ≡ d.resolution_source)
        × (e.canonical_expense_pk ≡ d.canonical_expense_pk))
      tables
      (elim (find_link-upsert l r a b (link_for a b s none pending none) (rescore s) t.links d
        (λ x. refl) found) [
          | inl f ↦ (refl, d, f, refl, refl, refl)
          | inr f ↦ (refl, rescore s d, f, refl, refl, refl)
        ])
