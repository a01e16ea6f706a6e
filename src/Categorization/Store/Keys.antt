-- ===== src/Categorization/Store/Keys.antt =====
-- Dictionaries that differ in the value of one key.
use home_budget_pipeline.Prelude.{
  ◌≡◌, refl, ◌≢◌, inl, inr, Bool, true, false, some, List, [], ◌∷◌, Bool-cases, sym, ap, subst, ◌∙◌,
  if◌then◌else◌,
}
use home_budget_pipeline.Prelude.Text.{Text, ◌==ₜ◌, text_eq, text_refl}
use home_budget_pipeline.Categorization.Logic.{get}
use home_budget_pipeline.Categorization.Pipeline.{put}

-- e is d with the value c under the key n.
abbrev pub IsWith : Text → Text → List (Text × Text) → List (Text × Text) → Type 0
IsWith n c e d = (k : Text) → get k e ≡ (if n ==ₜ k then some c else get k d)

if-swap :
    {A : Type 0} (a b : Bool) (x y z : A)
    → ((a ≡ true) → (b ≡ true) → ⊥)
    → (if a then x else if b then y else z) ≡ (if b then y else if a then x else z)
if-swap true true x y z h = absurd (h refl refl)
if-swap true false x y z h = refl
if-swap false true x y z h = refl
if-swap false false x y z h = refl

if-twice :
    {A : Type 0} (a : Bool) (x y z : A)
    → (if a then x else z) ≡ (if a then x else if a then y else z)
if-twice true x y z = refl
if-twice false x y z = refl

true-false : true ≡ false → ⊥
true-false h = cc

distinct_keys : (m n k : Text) → m ≢ n → (m ==ₜ k) ≡ true → (n ==ₜ k) ≡ true → ⊥
distinct_keys m n k h p q = h (text_eq m k p ∙ sym (text_eq n k q))

pub not_same : (m n : Text) → (m ==ₜ n) ≡ false → m ≢ n
not_same m n e p = true-false (sym (subst (λ m. (m ==ₜ n) ≡ true) (sym p) (text_refl n)) ∙ e)

pub get-put : (n c : Text) (d : List (Text × Text)) → IsWith n c (put n c d) d
unfolding get put
get-put n c [] k = refl
get-put n c ((m, v) ∷ rest) k = elim (Bool-cases (m ==ₜ n)) [
  | inl e ↦ rw e (
      subst
        (λ m.
          (if m ==ₜ k then some c else get k rest)
          ≡ (if n ==ₜ k then some c else if m ==ₜ k then some v else get k rest))
        (sym (text_eq m n e)) (if-twice (n ==ₜ k) (some c) (some v) (get k rest)))
  | inr e ↦ rw e (
      ap (λ o. if m ==ₜ k then some v else o) (get-put n c rest k)
      ∙ if-swap (m ==ₜ k) (n ==ₜ k) (some v) (some c) (get k rest)
          (distinct_keys m n k (not_same m n e)))
]

-- The same assignments keep the difference, unless they are to its key.
pub IsWith-put :
    (n c m v : Text) (e d : List (Text × Text))
    → m ≢ n
    → IsWith n c e d
    → IsWith n c (put m v e) (put m v d)
IsWith-put n c m v e d differs h k =
    get-put m v e k
    ∙ (ap (λ o. if m ==ₜ k then some v else o) (h k)
        ∙ (if-swap (m ==ₜ k) (n ==ₜ k) (some v) (some c) (get k d) (distinct_keys m n k differs)
            ∙ ap (λ o. if n ==ₜ k then some c else o) (sym (get-put m v d k))))

-- An assignment to the key itself makes no difference to it.
pub IsWith-again : (n c v : Text) (d : List (Text × Text)) → IsWith n c (put n c d) (put n v d)
IsWith-again n c v d k =
    get-put n c d k
    ∙ (if-twice (n ==ₜ k) (some c) (some v) (get k d)
        ∙ ap (λ o. if n ==ₜ k then some c else o) (sym (get-put n v d k)))
