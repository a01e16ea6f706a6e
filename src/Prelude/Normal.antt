-- ===== src/Prelude/Normal.antt =====
-- The normal form of a text: words of [a-z0-9] with one space between them. It is its own normal form.
use home_budget_pipeline.Prelude.Tests.{if◌then◌else◌, ◌==◌, Bool-cases}
use Prim.Native.Nat.{ℕ}
use mathlib.Core.Path.{◌≡◌, refl, ap, subst, sym, ◌∙◌}
use mathlib.Core.Logic.{◌⊎◌, inl, inr}
use mathlib.Core.Bool.{Bool, true, false, not, ◌&&◌}
use mathlib.Core.List.{[], ◌∷◌}
use native.Mathlib.Omega.{arith}
use home_budget_pipeline.Prelude.Text.{
  Text, lower, strip, drop_spaces, drop_trailing, is_space, truthy, trim, trim_start, trim_end,
}
use home_budget_pipeline.Prelude.Words.{is_word, spaced, spaced_from, normalize_for_match}

-- Letters and digits, with single spaces between; the flag tells that a space stands before.
abbrev pub IsNeat : Bool → Text → Type 0
IsNeat b [] = Unit
IsNeat b (c ∷ s) = ((is_word c ≡ true) × IsNeat false s) ⊎ ((c ≡ 32) × (b ≡ false) × IsNeat true s)

IsNeat-spaced_from : (b : Bool) (s : Text) → IsNeat b (spaced_from b s)
unfolding spaced_from
IsNeat-spaced_from b [] = tt
IsNeat-spaced_from true (c ∷ s) = elim (Bool-cases (is_word c)) [
  | inl e ↦ rw e (inl (e, IsNeat-spaced_from false s))
  | inr e ↦ rw e (IsNeat-spaced_from true s)
]
IsNeat-spaced_from false (c ∷ s) = elim (Bool-cases (is_word c)) [
  | inl e ↦ rw e (inl (e, IsNeat-spaced_from false s))
  | inr e ↦ rw e (inr (refl, refl, IsNeat-spaced_from true s))
]

word_space : (c : ℕ) → is_word c ≡ true → is_space c ≡ false
unfolding is_space
word_space c h = ground arith

weaken : (s : Text) → IsNeat true s → IsNeat false s
weaken [] h = tt
weaken (c ∷ s) (inl h) = inl h
weaken (c ∷ s) (inr h) = cc

space_space : (c : ℕ) → c ≡ 32 → is_space c ≡ true
unfolding is_space
space_space c h = rw h refl

drop_spaces-neat : (s : Text) → IsNeat true s → drop_spaces s ≡ s
unfolding drop_spaces
drop_spaces-neat [] h = refl
drop_spaces-neat (c ∷ s) (inl h) = rw (word_space c h.0) refl
drop_spaces-neat (c ∷ s) (inr h) = cc

IsNeat-drop_spaces : (s : Text) → IsNeat false s → IsNeat true (drop_spaces s)
unfolding drop_spaces
IsNeat-drop_spaces [] h = tt
IsNeat-drop_spaces (c ∷ s) (inl h) = rw (word_space c h.0) (inl h)
IsNeat-drop_spaces (c ∷ s) (inr h) =
    rw (space_space c h.0) (subst (IsNeat true) (sym (drop_spaces-neat s h.2)) h.2)

IsNeat-cut : (b cut : Bool) (s : Text) → IsNeat b s → IsNeat b (if cut then [] else s)
IsNeat-cut b true s h = tt
IsNeat-cut b false s h = h

IsNeat-drop_trailing : (b : Bool) (s : Text) → IsNeat b s → IsNeat b (drop_trailing s)
unfolding drop_trailing
IsNeat-drop_trailing b [] h = tt
IsNeat-drop_trailing b (c ∷ s) (inl h) =
    rw (word_space c h.0) (inl (h.0, IsNeat-drop_trailing false s h.1))
IsNeat-drop_trailing b (c ∷ s) (inr h) =
    IsNeat-cut b (is_space c && not (truthy (drop_trailing s))) (c ∷ drop_trailing s)
      (inr (h.0, h.1, IsNeat-drop_trailing true s h.2))

lower_neat : (b : Bool) (s : Text) → IsNeat b s → lower s ≡ s
unfolding lower
lower_neat b [] h = refl
lower_neat b (c ∷ s) (inl h) = ground (arith, lower_neat false s h.1)
lower_neat b (c ∷ s) (inr h) = ground (arith, lower_neat true s h.2)

spaced_from-neat : (b : Bool) (s : Text) → IsNeat b s → spaced_from b s ≡ s
unfolding spaced_from
spaced_from-neat b [] h = refl
spaced_from-neat b (c ∷ s) (inl h) = ground (arith, spaced_from-neat false s h.1)
spaced_from-neat b (c ∷ s) (inr h) = ground (arith, spaced_from-neat true s h.2)

trailing-if :
    (b : Bool) (c : ℕ) (rest : Text)
    → (is_space c && not (truthy rest)) ≡ b
    → drop_trailing rest ≡ rest
    → drop_trailing (if b then [] else c ∷ rest) ≡ (if b then [] else c ∷ rest)
unfolding drop_trailing
trailing-if true c rest e h = refl
trailing-if false c rest e h = rw h (rw e refl)

drop_trailing-again : (s : Text) → drop_trailing (drop_trailing s) ≡ drop_trailing s
unfolding drop_trailing
drop_trailing-again [] = refl
drop_trailing-again (c ∷ s) =
    trailing-if (is_space c && not (truthy (drop_trailing s))) c (drop_trailing s) refl
      (drop_trailing-again s)

-- What `strip` leaves of a neat text is neat, and it leaves that as it is.
strip-IsNeat : (s : Text) → IsNeat false s → IsNeat true (strip s) × (strip (strip s) ≡ strip s)
unfolding strip
strip-IsNeat s h =
    let neat : IsNeat true (drop_trailing (drop_spaces s)) =
      IsNeat-drop_trailing true (drop_spaces s) (IsNeat-drop_spaces s h) in
    (neat, ap drop_trailing (drop_spaces-neat _ neat) ∙ drop_trailing-again (drop_spaces s))

trim_start-neat : (s : Text) → IsNeat true s → trim_start s ≡ s
unfolding trim_start
trim_start-neat [] h = refl
trim_start-neat (c ∷ s) (inl h) = ground arith
trim_start-neat (c ∷ s) (inr h) = cc

not_blank : (c : ℕ) → is_word c ≡ true → (c == 32) ≡ false
not_blank c h = ground arith

blank_space : (c : ℕ) → (is_word c ≡ true) ⊎ (c ≡ 32) → (c == 32) ≡ is_space c
blank_space c (inl h) = not_blank c h ∙ sym (word_space c h)
blank_space c (inr h) = rw h (sym (space_space 32 refl))

trim_end-neat : (b : Bool) (s : Text) → IsNeat b s → trim_end s ≡ drop_trailing s
unfolding trim_end drop_trailing
trim_end-neat b [] h = refl
trim_end-neat b (c ∷ s) (inl h) = rw (trim_end-neat false s h.1) (rw (blank_space c (inl h.0)) refl)
trim_end-neat b (c ∷ s) (inr h) = rw (trim_end-neat true s h.2) (rw (blank_space c (inr h.0)) refl)

trim-neat : (s : Text) → IsNeat true s → strip s ≡ s → trim s ≡ s
unfolding trim strip
trim-neat s neat h =
    ap trim_end (trim_start-neat s neat)
    ∙ (trim_end-neat true s neat ∙ (ap drop_trailing (sym (drop_spaces-neat s neat)) ∙ h))

-- A normal form is its own normal form, and has no capital letters and no spaces at its ends.
pub normalize-again :
    (s : Text)
    → (normalize_for_match (normalize_for_match s) ≡ normalize_for_match s)
      × (lower (normalize_for_match s) ≡ normalize_for_match s)
      × (trim (normalize_for_match s) ≡ normalize_for_match s)
unfolding normalize_for_match spaced
normalize-again s =
    let (neat, stripped) =
      strip-IsNeat (spaced_from false (lower s)) (IsNeat-spaced_from false (lower s)) in
    let low : lower (strip (spaced_from false (lower s))) ≡ strip (spaced_from false (lower s)) =
      lower_neat true _ neat in
    (
      ap (λ t. strip (spaced_from false t)) low
          ∙ (ap strip (spaced_from-neat false _ (weaken _ neat)) ∙ stripped),
      low,
      trim-neat _ neat stripped,
    )
