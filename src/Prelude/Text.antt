-- ===== src/Prelude/Text.antt =====
-- Python strings as lists of code points, with the string methods that the program calls.
use Prim.Native.Nat.{ℕ, ◌+◌, ◌≤◌}
use Prim.Native.Char.{code}
use Prim.Native.String.{String}
use mathlib.Core.Path.{◌≡◌, refl}
use mathlib.Core.Bool.{Bool, true, false, not, ◌&&◌, ◌||◌}
use mathlib.Core.List.{List, [], ◌∷◌, ◌++◌}
use native.Mathlib.Omega.{arith}
use home_budget_pipeline.Prelude.Lists.{length}
use home_budget_pipeline.Prelude.Tests.{leb, ◌==◌, if◌then◌else◌}

abbrev pub Text : Type 0
Text = List ℕ

abbrev pub codes : String → Text
codes String.[] = []
codes (String.◌∷◌ c s) = code c ∷ codes s

-- `a == b`
infix 50 ◌==ₜ◌
abbrev pub ◌==ₜ◌ : Text → Text → Bool
[] ==ₜ [] = true
(x ∷ xs) ==ₜ (y ∷ ys) = x == y && xs ==ₜ ys
_ ==ₜ _ = false

pub text_eq : (s t : Text) → (s ==ₜ t) ≡ true → s ≡ t
text_eq [] [] h = refl
text_eq (x ∷ xs) (y ∷ ys) h = ground (arith, text_eq xs ys)
text_eq [] (y ∷ ys) h = ground arith
text_eq (x ∷ xs) [] h = ground arith

pub text_refl : (s : Text) → (s ==ₜ s) ≡ true
text_refl [] = refl
text_refl (x ∷ xs) = ground (arith, text_refl xs)

-- `bool(s)`
abbrev pub truthy : Text → Bool
truthy [] = false
truthy (c ∷ s) = true

-- `str.isspace` of one code point, as `split()` and `strip()` use it.
unfoldable pub is_space : ℕ → Bool
is_space c =
    (leb 9 c && leb c 13)
    || (leb 28 c && leb c 32)
    || c == 0x85
    || c == 0xa0
    || c == 0x1680
    || (leb 0x2000 c && leb c 0x200a)
    || c == 0x2028
    || c == 0x2029
    || c == 0x202f
    || c == 0x205f
    || c == 0x3000

-- `str.lower`: the ASCII letters, and the two other code points whose lower case has an ASCII
-- letter. Other letters outside ASCII are left as they are.
unfoldable pub lower : Text → Text
lower [] = []
lower (c ∷ s) =
    let rest = lower s in
    if leb b'A' c && leb c b'Z'
    then (c + 32) ∷ rest
    else if c == 0x212a
    then b'k' ∷ rest
    else if c == 0x130
    then b'i' ∷ 0x307 ∷ rest
    else c ∷ rest

unfoldable pub drop_spaces : Text → Text
unfolding is_space
drop_spaces [] = []
drop_spaces (c ∷ s) = if is_space c then drop_spaces s else c ∷ s

-- What is left after trailing spaces go.
unfoldable pub drop_trailing : Text → Text
unfolding is_space
drop_trailing [] = []
drop_trailing (c ∷ s) =
    let rest = drop_trailing s in if is_space c && not (truthy rest) then [] else c ∷ rest

-- `s.strip()`
unfoldable pub strip : Text → Text
unfolding drop_spaces drop_trailing
strip s = drop_trailing (drop_spaces s)

-- SQL's `trim(s)`, which takes spaces away and nothing else.
unfoldable pub trim_start : Text → Text
trim_start [] = []
trim_start (c ∷ s) = if c == 32 then trim_start s else c ∷ s

unfoldable pub trim_end : Text → Text
trim_end [] = []
trim_end (c ∷ s) = let rest = trim_end s in if c == 32 && not (truthy rest) then [] else c ∷ rest

unfoldable pub trim : Text → Text
unfolding trim_start trim_end
trim s = trim_end (trim_start s)

-- The next word, and the words after it: `s.split()` by a fold from the right.
unfoldable pub split_from : Text → Text × List Text
unfolding is_space
split_from [] = ([], [])
split_from (c ∷ s) =
    let (word, words) = split_from s in
    if is_space c then ([], if truthy word then word ∷ words else words) else (c ∷ word, words)

unfoldable pub split : Text → List Text
unfolding split_from
split s = let (word, words) = split_from s in if truthy word then word ∷ words else words

-- `' '.join(words)`
unfoldable pub join : List Text → Text
join [] = []
join (w ∷ []) = w
join (w ∷ v ∷ ws) = w ++ b' ' ∷ join (v ∷ ws)

unfoldable pub starts_with : Text → Text → Bool
starts_with [] s = true
starts_with (p ∷ ps) [] = false
starts_with (p ∷ ps) (c ∷ s) = p == c && starts_with ps s

-- `p in s`
unfoldable pub contains : Text → Text → Bool
unfolding starts_with
contains p [] = starts_with p []
contains p (c ∷ s) = starts_with p (c ∷ s) || contains p s

length-drop_spaces-le : (s : Text) → length (drop_spaces s) ≤ length s
unfolding drop_spaces
length-drop_spaces-le [] = omega arith
length-drop_spaces-le (c ∷ s) = ground (arith, length-drop_spaces-le s)

length-drop_trailing-le : (s : Text) → length (drop_trailing s) ≤ length s
unfolding drop_trailing
length-drop_trailing-le [] = omega arith
length-drop_trailing-le (c ∷ s) = ground (arith, length-drop_trailing-le s)

pub length-strip-le : (s : Text) → length (strip s) ≤ length s
unfolding strip
length-strip-le s = omega (arith, length-drop_trailing-le (drop_spaces s), length-drop_spaces-le s)
