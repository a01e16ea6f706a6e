-- ===== src/Prelude/Ranking.antt =====
-- `sorted(…, key=lambda r: (-score, identity))`: the highest score first, the lowest identity first
-- among equal scores, and the order of the input among equal keys.
use Prim.Native.Nat.{ℕ, ◌≤◌}
use mathlib.Core.Path.{◌≡◌, refl, sym, ◌∙◌}
use mathlib.Core.List
use mathlib.Core.Logic.{∥∥₁_elim, ◌≢◌, ◌⊎◌, inl, inr}
use mathlib.Core.HLevel.{¬_prop}
use mathlib.Core.Bool.{Bool, true, false, ◌&&◌, ◌||◌}
use mathlib.Core.List.{List, [], ◌∷◌, Perm, Permᴰ, Pairwise, rel_of_Pairwise-cons, mem-cons_self}
use mathlib.Core.List.Perm
use mathlib.Core.List.Permᴰ
use mathlib.Core.List.Pairwise
use native.Mathlib.Omega.{arith}
use home_budget_pipeline.Prelude.Tests.{ltb, ◌==◌, if◌then◌else◌, Bool-cases}
use home_budget_pipeline.Prelude.Lists.{All}

module _ {ℓ} {A : Type ℓ} (score identity : A → ℕ) where
  -- The key of `y` is strictly before the key of `x`.
  unfoldable pub ahead : A → A → Bool
  ahead y x = ltb (score x) (score y) || (score x == score y && ltb (identity y) (identity x))

  unfoldable pub insert_ranked : A → List A → List A
  insert_ranked x [] = x ∷ []
  insert_ranked x (y ∷ ys) = if ahead y x then y ∷ insert_ranked x ys else x ∷ y ∷ ys

  unfoldable pub rank : List A → List A
  unfolding insert_ranked ahead
  rank [] = []
  rank (x ∷ xs) = insert_ranked x (rank xs)

  -- No later entry has a key strictly before an earlier one.
  abbrev pub IsRanked : List A → Type ℓ
  IsRanked [] = Unit
  IsRanked (x ∷ xs) = All (λ y. ahead y x ≡ false) xs × IsRanked xs

  insert_ranked-perm : (x : A) (ys : List A) → Perm (insert_ranked x ys) (x ∷ ys)
  unfolding insert_ranked
  insert_ranked-perm x [] = Perm.refl (x ∷ [])
  insert_ranked-perm x (y ∷ ys) = elim (Bool-cases (ahead y x)) [
    | inl e ↦ rw e (Perm.trans (Perm.cons y (insert_ranked-perm x ys)) (Perm.swap x y ys))
    | inr e ↦ rw e (Perm.refl (x ∷ y ∷ ys))
  ]

  pub rank-perm : (xs : List A) → Perm (rank xs) xs
  unfolding rank
  rank-perm [] = Perm.refl []
  rank-perm (x ∷ xs) = Perm.trans (insert_ranked-perm x (rank xs)) (Perm.cons x (rank-perm xs))

  ahead_trans : (x y z : A) → ahead y x ≡ false → ahead z y ≡ false → ahead z x ≡ false
  unfolding ahead
  ahead_trans x y z h k = ground arith

  ahead_asymm : (x y : A) → ahead y x ≡ true → ahead x y ≡ false
  unfolding ahead
  ahead_asymm x y h = ground arith

  All-ahead_trans :
      (x y : A) (zs : List A)
      → ahead y x ≡ false
      → All (λ z. ahead z y ≡ false) zs
      → All (λ z. ahead z x ≡ false) zs
  All-ahead_trans x y [] h k = tt
  All-ahead_trans x y (z ∷ zs) h k = (ahead_trans x y z h k.0, All-ahead_trans x y zs h k.1)

  All-insert_ranked :
      (w x : A) (ys : List A)
      → ahead x w ≡ false
      → All (λ z. ahead z w ≡ false) ys
      → All (λ z. ahead z w ≡ false) (insert_ranked x ys)
  unfolding insert_ranked
  All-insert_ranked w x [] h k = (h, tt)
  All-insert_ranked w x (y ∷ ys) h k = elim (Bool-cases (ahead y x)) [
    | inl e ↦ rw e (k.0, All-insert_ranked w x ys h k.1)
    | inr e ↦ rw e (h, k)
  ]

  insert_ranked-IsRanked : (x : A) (ys : List A) → IsRanked ys → IsRanked (insert_ranked x ys)
  unfolding insert_ranked
  insert_ranked-IsRanked x [] h = (tt, tt)
  insert_ranked-IsRanked x (y ∷ ys) h = elim (Bool-cases (ahead y x)) [
    | inl e ↦
        rw e (All-insert_ranked y x ys (ahead_asymm x y e) h.0, insert_ranked-IsRanked x ys h.1)
    | inr e ↦ rw e ((e, All-ahead_trans x y ys e h.0), h)
  ]

  pub rank-IsRanked : (xs : List A) → IsRanked (rank xs)
  unfolding rank
  rank-IsRanked [] = tt
  rank-IsRanked (x ∷ xs) = insert_ranked-IsRanked x (rank xs) (rank-IsRanked xs)

  insert_ranked_comm :
      (x y : A) (l : List A)
      → (ahead x y ≡ true) ⊎ (ahead y x ≡ true)
      → insert_ranked x (insert_ranked y l) ≡ insert_ranked y (insert_ranked x l)
  unfolding insert_ranked
  insert_ranked_comm x y [] h = ground (arith, ahead_asymm x y, ahead_asymm y x)
  insert_ranked_comm x y (z ∷ l) h = ground (
    arith,
    insert_ranked_comm x y l h,
    ahead_asymm x y,
    ahead_asymm y x,
    ahead_trans z x y,
    ahead_trans z y x,
    ahead_trans x z y,
    ahead_trans y z x,
    ahead_trans x y z,
    ahead_trans y x z,
  )

  -- No two entries share an identity.
  abbrev pub HasDistinctIdentities : List A → Type ℓ
  HasDistinctIdentities = Pairwise (λ a b. identity a ≢ identity b)

  ahead_total : (x y : A) → identity x ≢ identity y → (ahead x y ≡ true) ⊎ (ahead y x ≡ true)
  unfolding ahead
  ahead_total x y h = elim (Bool-cases (ahead x y)) [ inl e ↦ inl e | inr e ↦ inr (ground arith) ]

  rank-eq_of_Permᴰ : {xs ys : List A} → Permᴰ xs ys → HasDistinctIdentities xs → rank xs ≡ rank ys
  unfolding rank
  rank-eq_of_Permᴰ Permᴰ.nil d = refl
  rank-eq_of_Permᴰ (Permᴰ.cons {b = b} e p) d = rw (e, rank-eq_of_Permᴰ p (Pairwise.of_cons d))
  rank-eq_of_Permᴰ (Permᴰ.swap {a = a} {b = b} {l = l} e f) d =
      rw (← e, ← f)
        (insert_ranked_comm a b (rank l) (ahead_total a b (rel_of_Pairwise-cons d mem-cons_self)))
  rank-eq_of_Permᴰ (Permᴰ.trans p q) d =
      rank-eq_of_Permᴰ p d
      ∙ rank-eq_of_Permᴰ q (Permᴰ.pairwise (λ a b. ¬_prop) (λ a b h e. h (sym e)) p d)

  pub rank-eq_of_perm :
      {xs ys : List A} → IsSet A → Perm xs ys → HasDistinctIdentities xs → rank xs ≡ rank ys
  rank-eq_of_perm {xs} {ys} s p d =
      ∥∥₁_elim p (List.is_set s (rank xs) (rank ys)) (λ q. rank-eq_of_Permᴰ q d)

  -- The first entry has the highest score.
  pub All-score-le :
      (x : A) (ys : List A) → All (λ y. ahead y x ≡ false) ys → All (λ y. score y ≤ score x) ys
  unfolding ahead
  All-score-le x [] h = tt
  All-score-le x (y ∷ ys) h = (ground arith, All-score-le x ys h.1)
