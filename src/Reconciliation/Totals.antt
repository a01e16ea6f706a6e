-- ===== src/Reconciliation/Totals.antt =====
-- reconciliation/processing.py: the line totals that the checks add up.
use home_budget_pipeline.Prelude.{
  ◌≡◌, refl, ◌↔◌, ◌⊎◌, inl, inr, Bool, true, false, ◌||◌, Option, none, some, arith, List, [], ◌∷◌,
  any, select, is_none, is_some, if◌then◌else◌, ap,
}
use home_budget_pipeline.Prelude.Int.{ℤ, ◌+ℤ◌, sum}
use home_budget_pipeline.Prelude.Text.{Text}
use home_budget_pipeline.Reconciliation.{CanonicalPurchaseItem, lacks_total, has_category, total_of}

-- The totals of the lines, each of which has one.
abbrev pub AreTotals : List CanonicalPurchaseItem → List ℤ → Type 0
AreTotals [] [] = Unit
AreTotals (i ∷ items) (a ∷ totals) = (i.line_total ≡ some a) × AreTotals items totals
AreTotals _ _ = ⊥

-- The totals of the lines that have a category, each of which has one.
pub data AreCategorized : List CanonicalPurchaseItem → List ℤ → Type 0 where
  end : AreCategorized [] []
  counts :
      (i : CanonicalPurchaseItem) (name : Text) (a : ℤ) (items : List CanonicalPurchaseItem)
      (totals : List ℤ)
      → i.category_name ≡ some name
      → i.line_total ≡ some a
      → AreCategorized items totals
      → AreCategorized (i ∷ items) (a ∷ totals)
  skips :
      (i : CanonicalPurchaseItem) (items : List CanonicalPurchaseItem) (totals : List ℤ)
      → i.category_name ≡ none
      → AreCategorized items totals
      → AreCategorized (i ∷ items) totals

total_known : (o : Option ℤ) → is_none o ≡ false → (a : ℤ) × (o ≡ some a)
total_known none h = cc
total_known (some a) h = (a, refl)

or_false : (b c : Bool) → ((b || c) ≡ false) ↔ ((b ≡ false) × (c ≡ false))
or_false b c = ground arith

pub totals_there :
    (items : List CanonicalPurchaseItem)
    → any lacks_total items ≡ false
    → (totals : List ℤ) × AreTotals items totals
unfolding any
totals_there [] h = ([], tt)
totals_there (i ∷ items) h =
    let (here, later) = (or_false (is_none i.line_total) (any lacks_total items)).0 h in
    let (a, e) = total_known i.line_total here in
    let (totals, are) = totals_there items later in (a ∷ totals, (e, are))

pub AreTotals-full :
    (items : List CanonicalPurchaseItem) (totals : List ℤ)
    → AreTotals items totals
    → any lacks_total items ≡ false
unfolding any
AreTotals-full [] totals h = refl
AreTotals-full (i ∷ items) [] h = absurd h
AreTotals-full (i ∷ items) (a ∷ totals) h = rw h.0 (AreTotals-full items totals h.1)

pub total_of-AreTotals :
    (items : List CanonicalPurchaseItem) (totals : List ℤ)
    → AreTotals items totals
    → total_of items ≡ sum totals
unfolding total_of sum
total_of-AreTotals [] [] h = refl
total_of-AreTotals [] (a ∷ totals) h = absurd h
total_of-AreTotals (i ∷ items) [] h = absurd h
total_of-AreTotals (i ∷ items) (a ∷ totals) h =
    let rest = total_of-AreTotals items totals h.1 in rw h.0 (ap (λ t. a +ℤ t) rest)

pub AreCategorized-totals :
    {items : List CanonicalPurchaseItem} {totals : List ℤ}
    → AreCategorized items totals
    → AreTotals (select has_category items) totals
unfolding select
AreCategorized-totals end = tt
AreCategorized-totals (counts i name a items totals e t rest) = rw e (t, AreCategorized-totals rest)
AreCategorized-totals (skips i items totals e rest) = rw e (AreCategorized-totals rest)

category_given : (o : Option Text) → ((name : Text) × (o ≡ some name)) ⊎ (o ≡ none)
category_given none = inr refl
category_given (some name) = inl (name, refl)

categorized_line :
    (i : CanonicalPurchaseItem) (name : Text) (items : List CanonicalPurchaseItem) (totals : List ℤ)
    → i.category_name ≡ some name
    → AreTotals (i ∷ select has_category items) totals
    → ((rest : List ℤ) → AreTotals (select has_category items) rest → AreCategorized items rest)
    → AreCategorized (i ∷ items) totals
categorized_line i name items [] e h rest = absurd h
categorized_line i name items (a ∷ totals) e h rest =
    counts i name a items totals e h.0 (rest totals h.1)

kept_line :
    (i : CanonicalPurchaseItem) (lines : List CanonicalPurchaseItem) (totals : List ℤ) (b : Bool)
    → b ≡ true
    → AreTotals (if b then i ∷ lines else lines) totals
    → AreTotals (i ∷ lines) totals
kept_line i lines totals true e h = h
kept_line i lines totals false e h = cc

dropped_line :
    (i : CanonicalPurchaseItem) (lines : List CanonicalPurchaseItem) (totals : List ℤ) (b : Bool)
    → b ≡ false
    → AreTotals (if b then i ∷ lines else lines) totals
    → AreTotals lines totals
dropped_line i lines totals false e h = h
dropped_line i lines totals true e h = cc

pub AreCategorized-of :
    (items : List CanonicalPurchaseItem) (totals : List ℤ)
    → AreTotals (select has_category items) totals
    → AreCategorized items totals
unfolding select
AreCategorized-of [] [] h = end
AreCategorized-of [] (a ∷ totals) h = absurd h
AreCategorized-of (i ∷ items) totals h = elim (category_given i.category_name) [
  | inl (name, e) ↦
      categorized_line i name items totals e
        (kept_line i (select has_category items) totals _ (ap is_some e) h)
        (λ rest. AreCategorized-of items rest)
  | inr e ↦ skips i items totals e (
      AreCategorized-of items totals
        (dropped_line i (select has_category items) totals _ (ap is_some e) h))
]
