-- ===== src/Prelude/Listed.antt =====
-- Occurrence in a list, as a choice of position.
use mathlib.Core.Path.{◌≡◌, refl}
use mathlib.Core.Logic.{◌⊎◌, inl, inr}
use mathlib.Core.List.{List, [], ◌∷◌, ◌++◌}

abbrev pub Listed : {A : Type 0} → A → List A → Type 0
Listed a [] = ⊥
Listed a (x ∷ xs) = (x ≡ a) ⊎ Listed a xs

module _ {A : Type 0} where
  pub Listed-left : (a : A) (xs ys : List A) → Listed a xs → Listed a (xs ++ ys)
  Listed-left a [] ys h = absurd h
  Listed-left a (x ∷ xs) ys (inl e) = inl e
  Listed-left a (x ∷ xs) ys (inr h) = inr (Listed-left a xs ys h)

  pub Listed-right : (a : A) (xs ys : List A) → Listed a ys → Listed a (xs ++ ys)
  Listed-right a [] ys h = h
  Listed-right a (x ∷ xs) ys h = inr (Listed-right a xs ys h)

  pub Listed-last : (a : A) (xs : List A) → Listed a (xs ++ a ∷ [])
  Listed-last a xs = Listed-right a xs (a ∷ []) (inl refl)

  -- An element of a list with one position marked is there, or elsewhere.
  pub Listed-split :
      (a x : A) (xs ys : List A) → Listed a (xs ++ x ∷ ys) → (x ≡ a) ⊎ Listed a (xs ++ ys)
  Listed-split a x [] ys h = h
  Listed-split a x (z ∷ xs) ys (inl e) = inr (inl e)
  Listed-split a x (z ∷ xs) ys (inr h) = elim (Listed-split a x xs ys h) [
    | inl e ↦ inl e
    | inr k ↦ inr (inr k)
  ]

  pub Listed-insert : (a x : A) (xs ys : List A) → Listed a (xs ++ ys) → Listed a (xs ++ x ∷ ys)
  Listed-insert a x [] ys h = inr h
  Listed-insert a x (z ∷ xs) ys (inl e) = inl e
  Listed-insert a x (z ∷ xs) ys (inr h) = inr (Listed-insert a x xs ys h)
