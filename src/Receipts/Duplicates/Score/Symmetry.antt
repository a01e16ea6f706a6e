-- ===== src/Receipts/Duplicates/Score/Symmetry.antt =====
-- The score of a pair is the same from both sides.
use home_budget_pipeline.Prelude.{
  ℕ, max, ◌≡◌, ◌↔◌, refl, ap, true, Option, none, some, List, [], ◌∷◌, arith, map, ==_iff,
}
use home_budget_pipeline.Prelude.Int.{ℤ, abs, ◌-ℤ◌, ==ℤ_iff}
use home_budget_pipeline.Prelude.Sets.{
  distinct-is_set, length-common_comm, length-union_comm, meet_comm, is_set,
}
use home_budget_pipeline.Prelude.Text.{Text, ◌==ₜ◌, text_eq, text_refl}
use home_budget_pipeline.Receipts.Duplicates.{
  ReceiptEvidenceFingerprint, ReceiptItemFingerprint, norm_text, item_similarity_of, Key, same_key,
  same_quantity, keys, item_key,
}
use home_budget_pipeline.Receipts.Duplicates.Score.{
  identifiers, identifiers_meet, merchants_match, nearness, agreement, cards_match,
  compare_receipts, score, score_of_findings, disposition_for, correlated, reasons_of_findings,
}

text_iff : (s t : Text) → ((s ==ₜ t) ≡ true) ↔ (s ≡ t)
text_iff s t = (λ h. text_eq s t h, λ e. rw e (text_refl t))

text_sym : (s t : Text) → (s ==ₜ t) ≡ (t ==ₜ s)
text_sym s t = ground (arith, text_iff s t, text_iff t s)

same_quantity_iff : (q r : Option (ℤ × ℕ)) → (same_quantity q r ≡ true) ↔ (q ≡ r)
same_quantity_iff none none = (λ _. refl, λ _. refl)
same_quantity_iff none (some (b, q)) = (λ h. cc, λ h. cc)
same_quantity_iff (some (a, p)) none = (λ h. cc, λ h. cc)
same_quantity_iff (some (a, p)) (some (b, q)) = ground (arith, ==ℤ_iff a b, ==_iff p q)

same_key_iff : (a b : Key) → (same_key a b ≡ true) ↔ (a ≡ b)
same_key_iff (a, q) (b, r) = ground (arith, text_iff a b, same_quantity_iff q r)

merchants_comm : (a b : Option Text) → merchants_match a b ≡ merchants_match b a
unfolding merchants_match
merchants_comm a b =
    ground (arith, text_iff (norm_text a) (norm_text b), text_sym (norm_text a) (norm_text b))

identifiers_comm : (a b : List Text) → identifiers_meet a b ≡ identifiers_meet b a
unfolding identifiers_meet
identifiers_comm a b = meet_comm ◌==ₜ◌ text_iff a b

nearness_comm : (a b : Option ℕ) → nearness a b ≡ nearness b a
unfolding nearness
nearness_comm none none = refl
nearness_comm none (some b) = refl
nearness_comm (some a) none = refl
nearness_comm (some a) (some b) = ground arith

abs-difference_comm : (a b : ℤ) → abs (a -ℤ b) ≡ abs (b -ℤ a)
unfolding ◌-ℤ◌
abs-difference_comm a b = ground arith

max_comm : (m n : ℕ) → max m n ≡ max n m
max_comm m n = omega arith

agreement_comm : (a b : Option ℤ) → agreement a b ≡ agreement b a
unfolding agreement
agreement_comm none none = refl
agreement_comm none (some b) = refl
agreement_comm (some a) none = refl
agreement_comm (some a) (some b) = rw (abs-difference_comm a b, max_comm (abs a) (abs b)) refl

cards_comm : (a b : Option Text) → cards_match a b ≡ cards_match b a
unfolding cards_match
cards_comm none none = refl
cards_comm none (some b) = refl
cards_comm (some a) none = refl
cards_comm (some a) (some b) = ground (arith, text_sym a b)

keys-is_set : (items : List ReceiptItemFingerprint) → is_set same_key (keys items) ≡ true
unfolding keys
keys-is_set items = distinct-is_set same_key (map item_key items)

similarity_comm :
    (l r : List ReceiptItemFingerprint) → item_similarity_of l r ≡ item_similarity_of r l
unfolding item_similarity_of
similarity_comm [] [] = refl
similarity_comm [] (j ∷ r) = refl
similarity_comm (i ∷ l) [] = refl
similarity_comm (i ∷ l) (j ∷ r) =
    let a = keys-is_set (i ∷ l) in
    let b = keys-is_set (j ∷ r) in
    let c = length-common_comm same_key same_key_iff (keys (i ∷ l)) (keys (j ∷ r)) a b in
    let u = length-union_comm same_key same_key_iff (keys (i ∷ l)) (keys (j ∷ r)) a b in cc

compare_comm : (l r : ReceiptEvidenceFingerprint) → compare_receipts l r ≡ compare_receipts r l
unfolding compare_receipts
compare_comm l r =
    rw
      (
        identifiers_comm (identifiers l) (identifiers r),
        merchants_comm l.merchant r.merchant,
        nearness_comm l.transaction_datetime r.transaction_datetime,
        agreement_comm l.total r.total,
        cards_comm l.card_last4 r.card_last4,
        similarity_comm l.items r.items,
      )
      refl

-- A pair gets the same score, disposition, reasons and item similarity from both sides.
pub score_symmetric :
    (l r : ReceiptEvidenceFingerprint)
    → ((score l r).score ≡ (score r l).score)
      × ((score l r).disposition ≡ (score r l).disposition)
      × ((score l r).reasons ≡ (score r l).reasons)
      × ((score l r).item_similarity ≡ (score r l).item_similarity)
unfolding score
score_symmetric l r =
    let e = compare_comm l r in
    let s = similarity_comm l.items r.items in
    (
      ap score_of_findings e,
      ap (λ f. disposition_for (score_of_findings f) (correlated f)) e,
      ap reasons_of_findings e,
      s,
    )
