-- ===== src/Prelude/Difflib.antt =====
-- `difflib.SequenceMatcher(None, a, b).ratio()` of Python's library, for a `b` of fewer than 200
-- code points (from 200 on the library leaves out popular code points).
use Prim.Native.Nat.{ℕ, zero, suc, ◌+◌, ◌*◌, ◌≤◌, min}
use mathlib.Core.Path.{◌≡◌}
use mathlib.Core.Bool.{Bool}
use mathlib.Core.List.{[], ◌∷◌}
use native.Mathlib.Omega.{arith}
use mathlib.Core.Logic.{inl, inr}
use home_budget_pipeline.Prelude.Tests.{ltb, leb, ◌==◌, if◌then◌else◌, Bool-cases}
use home_budget_pipeline.Prelude.Lists.{length, take, drop}
use home_budget_pipeline.Prelude.Text.{Text}

-- A block `a[i:i+size] == b[j:j+size]`.
pub record Block : Type 0 where
  pub i : ℕ
  pub j : ℕ
  pub size : ℕ

abbrev empty_block : Block
empty_block = record { i = 0; j = 0; size = 0 }

common_prefix : Text → Text → ℕ
common_prefix (x ∷ a) (y ∷ b) = if x == y then suc (common_prefix a b) else 0
common_prefix _ _ = 0

-- The longest block so far stays unless the new one is longer: ties go to the earliest.
longer : Block → Block → Block
longer old new = if ltb old.size new.size then new else old

-- Blocks that start at `a[0]` and at each position of `b`, the first at index `j`.
scan_b : ℕ → Text → ℕ → Text → Block → Block
unfolding longer common_prefix
scan_b i a j [] best = best
scan_b i a j (y ∷ b) best =
    scan_b i a (suc j) b (longer best (record { i = i; j = j; size = common_prefix a (y ∷ b) }))

scan_a : ℕ → Text → Text → Block → Block
unfolding scan_b
scan_a i [] b best = best
scan_a i (x ∷ a) b best = scan_a (suc i) a b (scan_b i (x ∷ a) 0 b best)

-- `find_longest_match`: the longest block, earliest in `a`, then earliest in `b`.
unfoldable pub longest_match : Text → Text → Block
unfolding scan_a
longest_match a b = scan_a 0 a b empty_block

-- The sum of the sizes of `get_matching_blocks()`. The fuel bounds the depth of the recursion on the
-- texts left and right of the longest block.
unfoldable pub matches_fuel : ℕ → Text → Text → ℕ
unfolding longest_match
matches_fuel zero a b = 0
matches_fuel (suc fuel) a b =
    let block = longest_match a b in
    let left = matches_fuel fuel (take block.i a) (take block.j b) in
    let right = matches_fuel fuel (drop (block.i + block.size) a) (drop (block.j + block.size) b) in
    if block.size == 0 then 0 else left + block.size + right

unfoldable pub matches : Text → Text → ℕ
unfolding matches_fuel
matches a b = matches_fuel (suc (length a)) a b

-- A ratio is kept as `2 * matches` over the two lengths; thresholds are compared exactly.
pub record Ratio : Type 0 where
  pub twice_matches : ℕ
  pub total_length : ℕ

unfoldable pub ratio : Text → Text → Ratio
unfolding matches
ratio a b = record { twice_matches = 2 * matches a b; total_length = length a + length b }

-- `r >= percent / 100`, for a ratio of two texts that are not both empty.
abbrev pub at_least : ℕ → Ratio → Bool
at_least percent r = leb (percent * r.total_length) (100 * r.twice_matches)

abbrev pub zero_ratio : Ratio
zero_ratio = record { twice_matches = 0; total_length = 1 }

common_prefix-le_left : (a b : Text) → common_prefix a b ≤ length a
unfolding common_prefix
common_prefix-le_left [] b = omega arith
common_prefix-le_left (x ∷ a) [] = omega arith
common_prefix-le_left (x ∷ a) (y ∷ b) = ground (arith, common_prefix-le_left a b)

common_prefix-le_right : (a b : Text) → common_prefix a b ≤ length b
unfolding common_prefix
common_prefix-le_right [] b = omega arith
common_prefix-le_right (x ∷ a) [] = omega arith
common_prefix-le_right (x ∷ a) (y ∷ b) = ground (arith, common_prefix-le_right a b)

-- A block lies within texts of the given lengths.
pub record IsWithin (m n : ℕ) (block : Block) : Type 0 where
  pub left : block.i + block.size ≤ m
  pub right : block.j + block.size ≤ n

longer-IsWithin :
    (m n : ℕ) (old new : Block)
    → IsWithin m n old
    → IsWithin m n new
    → IsWithin m n (longer old new)
unfolding longer
longer-IsWithin m n old new h k = ground arith

scan_b-IsWithin :
    (m n i : ℕ) (a : Text) (j : ℕ) (b : Text) (best : Block)
    → i + length a ≤ m
    → j + length b ≤ n
    → IsWithin m n best
    → IsWithin m n (scan_b i a j b best)
unfolding scan_b
scan_b-IsWithin m n i a j [] best p q h = h
scan_b-IsWithin m n i a j (y ∷ b) best p q h =
    let new : Block = record { i = i; j = j; size = common_prefix a (y ∷ b) } in
    scan_b-IsWithin m n i a (suc j) b (longer best new) p (omega arith) (
      longer-IsWithin m n best new h (record {
        left = omega (arith, common_prefix-le_left a (y ∷ b));
        right = omega (arith, common_prefix-le_right a (y ∷ b));
      }))

scan_a-IsWithin :
    (m i : ℕ) (a b : Text) (best : Block)
    → i + length a ≤ m
    → IsWithin m (length b) best
    → IsWithin m (length b) (scan_a i a b best)
unfolding scan_a
scan_a-IsWithin m i [] b best p h = h
scan_a-IsWithin m i (x ∷ a) b best p h =
    scan_a-IsWithin m (suc i) a b (scan_b i (x ∷ a) 0 b best) (omega arith)
      (scan_b-IsWithin m (length b) i (x ∷ a) 0 b best p (omega arith) h)

pub longest_match-IsWithin : (a b : Text) → IsWithin (length a) (length b) (longest_match a b)
unfolding longest_match
longest_match-IsWithin a b =
    scan_a-IsWithin (length a) 0 a b empty_block (omega arith)
      (record { left = omega arith; right = omega arith })

length-take_within : (n : ℕ) (xs : Text) → length (take n xs) ≡ min n (length xs)
length-take_within zero xs = omega arith
length-take_within (suc n) [] = omega arith
length-take_within (suc n) (x ∷ xs) = omega (arith, length-take_within n xs)

length-drop_within : (n : ℕ) (xs : Text) → length (drop n xs) + min n (length xs) ≡ length xs
length-drop_within zero xs = omega arith
length-drop_within (suc n) [] = omega arith
length-drop_within (suc n) (x ∷ xs) = omega (arith, length-drop_within n xs)

matches_fuel-le :
    (fuel : ℕ) (a b : Text)
    → (matches_fuel fuel a b ≤ length a) × (matches_fuel fuel a b ≤ length b)
unfolding matches_fuel
matches_fuel-le zero a b = omega arith
matches_fuel-le (suc fuel) a b =
    let block : Block = longest_match a b in
    let within : IsWithin (length a) (length b) block = longest_match-IsWithin a b in
    let left = matches_fuel-le fuel (take block.i a) (take block.j b) in
    let right =
      matches_fuel-le fuel (drop (block.i + block.size) a) (drop (block.j + block.size) b) in
    elim (Bool-cases (block.size == 0)) [
      | inl e ↦ rw e (omega arith)
      | inr e ↦ rw e (
          omega (
            arith,
            within,
            left,
            right,
            length-take_within block.i a,
            length-take_within block.j b,
            length-drop_within (block.i + block.size) a,
            length-drop_within (block.j + block.size) b,
          ))
    ]

-- No more code points match than either text has.
pub matches-le : (a b : Text) → (matches a b ≤ length a) × (matches a b ≤ length b)
unfolding matches
matches-le a b = matches_fuel-le (suc (length a)) a b
