-- ===== src/Receipts/Duplicates/Score/Evidence.antt =====
-- What a duplicate score says of the evidence.

use home_budget_pipeline.Prelude.{
  ◌≤◌, ◌≡◌, ◌≢◌, ◌⊎◌, inl, inr, true, refl, arith, Bool, any, select,
}
use home_budget_pipeline.Prelude.Text.{Text, truthy, ◌==ₜ◌, text_eq}
use home_budget_pipeline.Prelude.Sets.{member}
use home_budget_pipeline.Receipts.Duplicates.{
  exact, distinct_receipts, ReceiptEvidenceFingerprint, norm_id,
}
use home_budget_pipeline.Receipts.Duplicates.Score.{
  Findings, compare_receipts, score_of_findings, disposition_for, score, correlated, identifiers,
  identifiers_meet,
}

score_of_findings-le : (f : Findings) → score_of_findings f ≤ 130
unfolding score_of_findings
score_of_findings-le f = ground arith

exact-identifier :
    (f : Findings)
    → disposition_for (score_of_findings f) (correlated f) ≡ exact
    → f.identifier ≡ true
unfolding score_of_findings disposition_for
exact-identifier f h = ground arith

-- One of the two normalised identifiers of the receipt, which is not empty.
abbrev pub IsIdentifierOf : Text → ReceiptEvidenceFingerprint → Type 0
IsIdentifierOf i e = (truthy i ≡ true) × ((i ≡ norm_id e.receipt_id) ⊎ (i ≡ norm_id e.order_id))

any-identifiers :
    (p : Text → Bool) (e : ReceiptEvidenceFingerprint)
    → any p (identifiers e) ≡ true
    → ((truthy (norm_id e.receipt_id) ≡ true) × (p (norm_id e.receipt_id) ≡ true))
      ⊎ ((truthy (norm_id e.order_id) ≡ true) × (p (norm_id e.order_id) ≡ true))
unfolding identifiers any select
any-identifiers p e h = ground arith

identifier_with :
    (p : Text → Bool) (e : ReceiptEvidenceFingerprint)
    → any p (identifiers e) ≡ true
    → (i : Text) × IsIdentifierOf i e × (p i ≡ true)
identifier_with p e h = elim (any-identifiers p e h) [
  | inl (t, k) ↦ (norm_id e.receipt_id, (t, inl refl), k)
  | inr (t, k) ↦ (norm_id e.order_id, (t, inr refl), k)
]

meet-shared :
    (l r : ReceiptEvidenceFingerprint)
    → identifiers_meet (identifiers l) (identifiers r) ≡ true
    → (i : Text) × IsIdentifierOf i l × IsIdentifierOf i r
unfolding identifiers_meet member
meet-shared l r h =
    let (i, of_l, m) = identifier_with (λ i. member ◌==ₜ◌ i (identifiers r)) l h in
    let (j, of_r, e) = identifier_with (λ j. i ==ₜ j) r m in (i, of_l, rw (text_eq i j e) of_r)

-- Two receipts that the scorer calls exact duplicates share a receipt or an order identifier that
-- is not empty: merchant, time, total, card and items together never reach that disposition.
pub exact_shares_identifier :
    (l r : ReceiptEvidenceFingerprint)
    → (score l r).disposition ≡ exact
    → (i : Text) × IsIdentifierOf i l × IsIdentifierOf i r
unfolding score compare_receipts
exact_shares_identifier l r h = meet-shared l r (exact-identifier (compare_receipts l r) h)

-- No score is above 130, and a pair with one merchant, close times and overlapping items is never
-- called distinct, however low its score is.
correlated_is_reviewed :
    (l r : ReceiptEvidenceFingerprint)
    → ((score l r).score ≤ 130)
      × (correlated (compare_receipts l r) ≡ true → (score l r).disposition ≢ distinct_receipts)
unfolding score disposition_for
correlated_is_reviewed l r = (score_of_findings-le (compare_receipts l r), λ h e. ground arith)
