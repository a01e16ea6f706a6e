-- ===== src/Prelude/Sets.antt =====
-- Python sets as lists without repeated elements, under a Boolean equality.
use Prim.Native.Nat.{◌+◌}
use mathlib.Core.Path.{◌≡◌, refl, sym, subst}
use mathlib.Core.Logic.{◌↔◌, inl, inr}
use mathlib.Core.Bool.{Bool, true, false, not, ◌&&◌, ◌||◌}
use mathlib.Core.List.{List, [], ◌∷◌, ◌++◌}
use native.Mathlib.Omega.{arith}
use home_budget_pipeline.Prelude.Tests.{if◌then◌else◌, Bool-cases, and-eq-true}
use home_budget_pipeline.Prelude.Lists.{length, any, select, length-append}

module _ {ℓ} {A : Type ℓ} (same : A → A → Bool) where
  unfoldable pub member : A → List A → Bool
  unfolding any
  member x ys = any (same x) ys

  -- `set(xs)`
  unfoldable pub distinct : List A → List A
  unfolding member
  distinct [] = []
  distinct (x ∷ xs) = let rest = distinct xs in if member x rest then rest else x ∷ rest

  -- `xs & ys`
  unfoldable pub common : List A → List A → List A
  unfolding member select
  common xs ys = select (λ x. member x ys) xs

  -- `xs | ys`
  unfoldable pub union : List A → List A → List A
  unfolding member select
  union xs ys = xs ++ select (λ y. not (member y xs)) ys

  -- No element is repeated.
  unfoldable pub is_set : List A → Bool
  unfolding member
  is_set [] = true
  is_set (x ∷ xs) = not (member x xs) && is_set xs

  pub distinct-is_set : (xs : List A) → is_set (distinct xs) ≡ true
  unfolding is_set distinct
  distinct-is_set [] = refl
  distinct-is_set (x ∷ xs) = ground (arith, distinct-is_set xs)

  count-or :
      (p q : A → Bool) (ys : List A)
      → ((y : A) → (p y && q y) ≡ false)
      → length (select (λ y. p y || q y) ys) ≡ length (select p ys) + length (select q ys)
  unfolding select
  count-or p q [] apart = refl
  count-or p q (y ∷ ys) apart = ground (arith, apart y, count-or p q ys apart)

  not-eq-true : (b : Bool) → not b ≡ true → b ≡ false
  not-eq-true b h = ground arith

  count-none : (ys : List A) → length (select (λ y. false) ys) ≡ 0
  unfolding select
  count-none [] = refl
  count-none (y ∷ ys) = count-none ys

  count-not :
      (p : A → Bool) (ys : List A)
      → length (select (λ y. not (p y)) ys) + length (select p ys) ≡ length ys
  unfolding select
  count-not p [] = refl
  count-not p (y ∷ ys) = ground (arith, count-not p ys)

  module _ (same_iff : (a b : A) → (same a b ≡ true) ↔ (a ≡ b)) where
    same_sym : (a b : A) → same a b ≡ same b a
    same_sym a b = ground (arith, same_iff a b, same_iff b a)

    count-same_none :
        (x : A) (ys : List A) → member x ys ≡ false → length (select (λ y. same y x) ys) ≡ 0
    unfolding select member any
    count-same_none x [] h = refl
    count-same_none x (y ∷ ys) h = ground (arith, same_sym x y, count-same_none x ys)

    count-same :
        (x : A) (ys : List A)
        → is_set ys ≡ true
        → length (select (λ y. same y x) ys) ≡ (if member x ys then 1 else 0)
    unfolding select is_set member any
    count-same x [] h = refl
    count-same x (y ∷ ys) h =
        ground (arith, same_sym x y, same_iff x y, count-same x ys, count-same_none y ys)

    member-apart :
        (x : A) (xs : List A) → member x xs ≡ false → (y : A) → (same y x && member y xs) ≡ false
    member-apart x xs h y = elim (Bool-cases (same y x)) [
      | inl e ↦
          subst (λ z. (same z x && member z xs) ≡ false) (sym ((same_iff y x).0 e)) (ground arith)
      | inr e ↦ rw e refl
    ]

    -- The intersection has one size, whichever set it is read from.
    pub length-common_comm :
        (xs ys : List A)
        → is_set xs ≡ true
        → is_set ys ≡ true
        → length (common xs ys) ≡ length (common ys xs)
    unfolding common select is_set member any
    length-common_comm [] ys h k = sym (count-none ys)
    length-common_comm (x ∷ xs) ys h k =
        let (new, rest) = and-eq-true (not (member x xs)) (is_set xs) h in
        let apart = member-apart x xs (not-eq-true (member x xs) new) in
        let c = count-or (λ y. same y x) (λ y. member y xs) ys apart in
        ground (arith, length-common_comm xs ys rest k, count-same x ys k, c)

    pub length-union_comm :
        (xs ys : List A)
        → is_set xs ≡ true
        → is_set ys ≡ true
        → length (union xs ys) ≡ length (union ys xs)
    unfolding union common
    length-union_comm xs ys h k = omega (
      arith,
      length-append xs (select (λ y. not (member y xs)) ys),
      length-append ys (select (λ y. not (member y ys)) xs),
      count-not (λ y. member y xs) ys,
      count-not (λ y. member y ys) xs,
      length-common_comm xs ys h k,
    )

    any-or : (p q : A → Bool) (ys : List A) → any (λ y. p y || q y) ys ≡ (any p ys || any q ys)
    unfolding any
    any-or p q [] = refl
    any-or p q (y ∷ ys) = ground (arith, any-or p q ys)

    any-same : (x : A) (ys : List A) → any (λ y. same y x) ys ≡ member x ys
    unfolding any member
    any-same x [] = refl
    any-same x (y ∷ ys) = ground (arith, same_sym x y, any-same x ys)

    any-false : (ys : List A) → any (λ y. false) ys ≡ false
    unfolding any
    any-false [] = refl
    any-false (y ∷ ys) = any-false ys

    -- Whether two lists meet does not depend on the one that is read first.
    pub meet_comm : (xs ys : List A) → any (λ x. member x ys) xs ≡ any (λ y. member y xs) ys
    unfolding any member
    meet_comm [] ys = sym (any-false ys)
    meet_comm (x ∷ xs) ys =
        let c = any-or (λ y. same y x) (λ y. member y xs) ys in
        ground (arith, meet_comm xs ys, any-same x ys, c)
