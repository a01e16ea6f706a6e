-- ===== src/Prelude/Members.antt =====
-- `All` against membership, and its invariance under permutation.

use mathlib.Core.Path.{◌≡◌, refl, subst, sym}
use mathlib.Core.Bool.{Bool}
use native.Mathlib.Omega.{arith}
use mathlib.Core.Logic.{inl, inr}
use mathlib.Core.List.{
  List, [], ◌∷◌, Mem, Mem-prop, mem-cons, mem-cons_self, mem-cons_of_mem, not-mem-nil, Perm,
}
use mathlib.Core.List.Perm
use mathlib.Core.Logic.Or
use home_budget_pipeline.Prelude.Lists.{All, select, count_if, length}
use home_budget_pipeline.Prelude.Tests.{Bool-cases, if◌then◌else◌}

module _ {ℓ κ} {A : Type ℓ} (P : A → Type κ) where
  pub All-of_mem : (xs : List A) → ((x : A) → Mem x xs → P x) → All P xs
  All-of_mem [] h = tt
  All-of_mem (x ∷ xs) h = (h x mem-cons_self, All-of_mem xs (λ y m. h y (mem-cons_of_mem x m)))

  pub All-mem : ((x : A) → IsProp (P x)) → (xs : List A) → All P xs → (x : A) → Mem x xs → P x
  All-mem pP [] h x m = absurd (not-mem-nil m)
  All-mem pP (y ∷ xs) h x m =
      Or.elim (pP x) (mem-cons.0 m) (λ e. subst P (sym e) h.0) (λ k. All-mem pP xs h.1 x k)

  pub All-perm : ((x : A) → IsProp (P x)) → (xs ys : List A) → Perm xs ys → All P xs → All P ys
  All-perm pP xs ys p h = All-of_mem ys (λ x m. All-mem pP xs h x ((Perm.mem_iff p).1 m))

module _ {ℓ} {A : Type ℓ} (p : A → Bool) where
  pub mem-select : (xs : List A) {x : A} → Mem x (select p xs) → Mem x xs
  unfolding select
  mem-select [] m = m
  mem-select (y ∷ xs) {x} m = elim (Bool-cases (p y)) [
    | inl e ↦
        Or.elim Mem-prop
          (mem-cons.0
            (subst (λ (b : Bool). Mem x (if b then y ∷ select p xs else select p xs)) e m))
          (λ q. mem-cons.1 (Or.inl q)) (λ k. mem-cons_of_mem y (mem-select xs k))
    | inr e ↦ mem-cons_of_mem y (
        mem-select xs
          (subst (λ (b : Bool). Mem x (if b then y ∷ select p xs else select p xs)) e m))
  ]

  pub count_if-eq-length-select : (xs : List A) → count_if p xs ≡ length (select p xs)
  unfolding select count_if
  count_if-eq-length-select [] = refl
  count_if-eq-length-select (x ∷ xs) = ground (arith, count_if-eq-length-select xs)
