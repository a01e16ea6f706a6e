-- ===== src/Receipts/Duplicates/Score/Rank.antt =====
-- The ranked candidates of a receipt.
use mathlib.Core.List.{Perm}
use mathlib.Core.Logic.{◌≢◌}
use native.Mathlib.Omega.{arith}
use home_budget_pipeline.Prelude.{
  ◌≡◌, refl, Bool, true, false, not, List, [], ◌∷◌, map, select, ◌==◌, ◌≤◌, All, if◌then◌else◌, ℕ,
}
use home_budget_pipeline.Prelude.Ranking.{rank, ahead, IsRanked, rank-IsRanked, rank-perm}
use home_budget_pipeline.Receipts.Duplicates.{ReceiptEvidenceFingerprint, DuplicateScore}
use home_budget_pipeline.Receipts.Duplicates.Score.{
  score, score_of, right_id, other_than, rank_candidates,
}

-- The receipts among the candidates that are not the target, in their order.
pub data Others (target : ReceiptEvidenceFingerprint)
    : List ReceiptEvidenceFingerprint → List ReceiptEvidenceFingerprint → Type 0 where
  end : Others target [] []
  kept :
      (c : ReceiptEvidenceFingerprint) (cs os : List ReceiptEvidenceFingerprint)
      → c.evidence_id ≢ target.evidence_id
      → Others target cs os
      → Others target (c ∷ cs) (c ∷ os)
  itself :
      (c : ReceiptEvidenceFingerprint) (cs os : List ReceiptEvidenceFingerprint)
      → c.evidence_id ≡ target.evidence_id
      → Others target cs os
      → Others target (c ∷ cs) os

-- `x` may stand before `y`: its score is higher, or the same with an id that is not higher.
abbrev pub MayPrecede : DuplicateScore → DuplicateScore → Type 0
MayPrecede x y =
    (y.score ≤ x.score) × (x.score ≡ y.score → x.right_evidence_id ≤ y.right_evidence_id)

-- Every score may stand before all later ones.
abbrev pub IsBestFirst : List DuplicateScore → Type 0
IsBestFirst [] = Unit
IsBestFirst (x ∷ xs) = All (MayPrecede x) xs × IsBestFirst xs

not_ahead : (x y : DuplicateScore) → ahead score_of right_id y x ≡ false → MayPrecede x y
unfolding ahead
not_ahead x y h = (ground arith, λ e. ground arith)

All-MayPrecede :
    (x : DuplicateScore) (xs : List DuplicateScore)
    → All (λ y. ahead score_of right_id y x ≡ false) xs
    → All (MayPrecede x) xs
All-MayPrecede x [] h = tt
All-MayPrecede x (y ∷ xs) h = (not_ahead x y h.0, All-MayPrecede x xs h.1)

best_first : (xs : List DuplicateScore) → IsRanked score_of right_id xs → IsBestFirst xs
best_first [] h = tt
best_first (x ∷ xs) h = (All-MayPrecede x xs h.0, best_first xs h.1)

is_same : (a b : ℕ) → (a == b) ≡ true → a ≡ b
is_same a b h = ground arith

is_other : (a b : ℕ) → (a == b) ≡ false → a ≢ b
is_other a b h e = ground arith

Others-if :
    (target c : ReceiptEvidenceFingerprint) (cs os : List ReceiptEvidenceFingerprint) (b : Bool)
    → (c.evidence_id == target.evidence_id) ≡ b
    → Others target cs os
    → Others target (c ∷ cs) (if not b then c ∷ os else os)
Others-if target c cs os true e rest = itself c cs os (is_same _ _ e) rest
Others-if target c cs os false e rest = kept c cs os (is_other _ _ e) rest

select-Others :
    (target : ReceiptEvidenceFingerprint) (cs : List ReceiptEvidenceFingerprint)
    → Others target cs (select (other_than target) cs)
unfolding select
select-Others target [] = end
select-Others target (c ∷ cs) =
    Others-if target c cs (select (other_than target) cs) (c.evidence_id == target.evidence_id) refl
      (select-Others target cs)

-- The ranked candidates are, in some order, the scores of the target with each candidate whose id is
-- not its own, each as often as it is given; each has a higher score than all later ones, or the same
-- score and an id that is not higher.
pub rank_candidates-IsBestFirst :
    (target : ReceiptEvidenceFingerprint) (cs : List ReceiptEvidenceFingerprint)
    → IsBestFirst (rank_candidates target cs)
      × (os : List ReceiptEvidenceFingerprint) × Others target cs os
      × Perm (rank_candidates target cs) (map (score target) os)
unfolding rank_candidates
rank_candidates-IsBestFirst target cs =
    let os = select (other_than target) cs in
    let ss : List DuplicateScore = map (score target) os in
    (
      best_first (rank score_of right_id ss) (rank-IsRanked score_of right_id ss),
      os,
      select-Others target cs,
      rank-perm score_of right_id ss,
    )
