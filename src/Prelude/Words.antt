-- ===== src/Prelude/Words.antt =====
-- The two regular expressions by which the program normalises texts.
use Prim.Native.Nat.{ℕ}
use mathlib.Core.Bool.{Bool, true, false, ◌&&◌, ◌||◌}
use mathlib.Core.List.{[], ◌∷◌}
use home_budget_pipeline.Prelude.Lists.{select}
use home_budget_pipeline.Prelude.Tests.{leb, if◌then◌else◌}
use home_budget_pipeline.Prelude.Text.{Text, lower, strip}

-- `[a-z0-9]`
abbrev pub is_word : ℕ → Bool
is_word c = (leb b'a' c && leb c b'z') || (leb b'0' c && leb c b'9')

-- `re.sub(r"[^a-z0-9]+", " ", s)`; the flag tells that a run has already got its space.
unfoldable pub spaced_from : Bool → Text → Text
spaced_from in_run [] = []
spaced_from in_run (c ∷ s) =
    if is_word c
    then c ∷ spaced_from false s
    else if in_run
    then spaced_from true s
    else b' ' ∷ spaced_from true s

unfoldable pub spaced : Text → Text
unfolding spaced_from
spaced s = spaced_from false s

-- `re.sub(r"[^a-z0-9]", "", s)`
unfoldable pub letters : Text → Text
unfolding select
letters s = select is_word s

-- `re.sub(r'[^a-z0-9]+', ' ', text.lower()).strip()`
unfoldable pub normalize_for_match : Text → Text
unfolding spaced lower strip
normalize_for_match text = strip (spaced (lower text))
