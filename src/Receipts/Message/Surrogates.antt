-- ===== src/Receipts/Message/Surrogates.antt =====
-- receipts/message.py: the texts that JSON reads as they were written.
use home_budget_pipeline.Prelude.{
  ℕ, ◌<◌, Bool, true, false, ◌&&◌, ◌||◌, not, Option, none, some, [], ◌∷◌, ◌==◌, all, if◌then◌else◌,
  ◌≡◌, refl, inl, inr, Bool-cases, if_true, if_false, arith, subst, sym, ap, ◌∙◌, All,
}
use home_budget_pipeline.Prelude.Text.{Text, codes}
use home_budget_pipeline.Prelude.Table.{map_some}
use home_budget_pipeline.Prelude.Result.{
  raises, returns, bind-inversion, require-inversion, returns-inj,
}
use home_budget_pipeline.Transactions.Allocations.{is_hex, is_sha256}
use home_budget_pipeline.Receipts.Message.{
  JsonValue, string, null, has_shape, check_canonical, check_request, check_batch, check_progress,
  check_digest, check_range, is_null, unexpected_batch, incomplete_batch, batch_not_canonical,
  request_not_canonical, BatchProgress, InvalidReceiptMessage, normal_with_request,
}
use home_budget_pipeline.Receipts.Message.Encoding.{
  Fields, is_high, is_low, code_of_pair, join_first, join_pairs, loads_value, loads_fields,
  get_field,
}

abbrev StartsApart : ℕ → Text → Type 0
StartsApart c [] = Unit
StartsApart c (d ∷ s) = (is_high c && is_low d) ≡ false

-- No high surrogate stands directly before a low one.
abbrev pub HasNoPair : Text → Type 0
HasNoPair [] = Unit
HasNoPair (c ∷ s) = StartsApart c s × HasNoPair s

if_then : (b : Bool) (x y : Text) → b ≡ true → (if b then x else y) ≡ x
if_then true x y h = refl
if_then false x y h = cc

if_else : (b : Bool) (x y : Text) → b ≡ false → (if b then x else y) ≡ y
if_else false x y h = refl
if_else true x y h = cc

both_true : (b c : Bool) → (b && c) ≡ true → (b ≡ true) × (c ≡ true)
both_true b c h = ground arith

joined_apart : (c d e : ℕ) → (is_high (code_of_pair c d) && is_low e) ≡ false
joined_apart c d e = ground arith

joined-StartsApart : (c d : ℕ) (s : Text) → StartsApart (code_of_pair c d) s
joined-StartsApart c d [] = tt
joined-StartsApart c d (e ∷ s) = joined_apart c d e

join_first-HasNoPair : (c : ℕ) (s : Text) → HasNoPair s → HasNoPair (join_first c s)
unfolding join_first
join_first-HasNoPair c [] h = (tt, tt)
join_first-HasNoPair c (d ∷ s) h = elim (Bool-cases (is_high c && is_low d)) [
  | inl e ↦ subst HasNoPair (sym (if_then _ _ _ e)) (joined-StartsApart c d s, h.1)
  | inr e ↦ subst HasNoPair (sym (if_else _ _ _ e)) (e, h)
]

pub join_pairs-HasNoPair : (s : Text) → HasNoPair (join_pairs s)
unfolding join_pairs
join_pairs-HasNoPair [] = tt
join_pairs-HasNoPair (c ∷ s) = join_first-HasNoPair c (join_pairs s) (join_pairs-HasNoPair s)

join_first-apart : (c : ℕ) (s : Text) → StartsApart c s → join_first c s ≡ c ∷ s
unfolding join_first
join_first-apart c [] h = refl
join_first-apart c (d ∷ s) h = if_else _ _ _ h

pub join_pairs-same : (s : Text) → HasNoPair s → join_pairs s ≡ s
unfolding join_pairs
join_pairs-same [] h = refl
join_pairs-same (c ∷ s) h = ap (join_first c) (join_pairs-same s h.1) ∙ join_first-apart c s h.0

below_apart : (c d : ℕ) → c < 0xd800 → (is_high c && is_low d) ≡ false
below_apart c d h = ground arith

below-StartsApart : (c : ℕ) (s : Text) → c < 0xd800 → StartsApart c s
below-StartsApart c [] h = tt
below-StartsApart c (d ∷ s) h = below_apart c d h

hex_below : (c : ℕ) → is_hex c ≡ true → c < 0xd800
hex_below c h = ground arith

hex-HasNoPair : (s : Text) → all is_hex s ≡ true → HasNoPair s
unfolding all
hex-HasNoPair [] h = tt
hex-HasNoPair (c ∷ s) h =
    (below-StartsApart c s (hex_below c (ground arith)), hex-HasNoPair s (ground arith))

shaped_below : (x c : ℕ) → x < 0xd800 → (if x == b'x' then is_hex c else x == c) ≡ true → c < 0xd800
shaped_below x c h k = ground (arith, hex_below c)

shape-HasNoPair :
    (shape s : Text) → All (λ x. x < 0xd800) shape → has_shape shape s ≡ true → HasNoPair s
unfolding has_shape
shape-HasNoPair [] [] h k = tt
shape-HasNoPair [] (c ∷ s) h k = cc
shape-HasNoPair (x ∷ shape) [] h k = cc
shape-HasNoPair (x ∷ shape) (c ∷ s) h k =
    let (here, later) = both_true _ _ k in
    (below-StartsApart c s (shaped_below x c h.0 here), shape-HasNoPair shape s h.1 later)

uuid_shape : All (λ x. x < 0xd800) (codes "xxxxxxxx-xxxx-xxxx-xxxx-xxxxxxxxxxxx")
uuid_shape = omega arith

-- A text that is read as it was written, if there is one.
abbrev pub IsKept : Option Text → Type 0
IsKept none = Unit
IsKept (some s) = join_pairs s ≡ s

pub digest_kept_as_written :
    (j : JsonValue) {s : Text} → check_digest j ≡ returns s → join_pairs s ≡ s
unfolding check_digest is_sha256
digest_kept_as_written (string t) h = join_pairs-same _ (hex-HasNoPair _ (ground arith))
digest_kept_as_written _ h = cc

canonical_kept_as_written :
    (exc : InvalidReceiptMessage) (j : JsonValue) {s : Text}
    → check_canonical exc j ≡ returns s
    → join_pairs s ≡ s
unfolding check_canonical
canonical_kept_as_written exc (string t) h =
    join_pairs-same _
      (shape-HasNoPair (codes "xxxxxxxx-xxxx-xxxx-xxxx-xxxxxxxxxxxx") _ uuid_shape (ground arith))
canonical_kept_as_written exc _ h = cc

absent-IsKept :
    (j : JsonValue) {r : Option Text}
    → (if is_null j then returns none else raises normal_with_request) ≡ returns r
    → IsKept r
absent-IsKept null h = subst IsKept (returns-inj h) tt
absent-IsKept _ h = cc

pub request-IsKept :
    (n : ℕ) (j : JsonValue) {r : Option Text} → check_request n j ≡ returns r → IsKept r
unfolding check_request
request-IsKept n j h = elim (Bool-cases (n == 1)) [
  | inl e ↦ absent-IsKept j (if_true _ _ e h)
  | inr e ↦
      let (id, call, made) =
        bind-inversion (check_canonical request_not_canonical j) _ (if_false _ _ e h) in
      subst IsKept (returns-inj made) (canonical_kept_as_written request_not_canonical j call)
]

progress-IsKept :
    (n : ℕ) (id i t : JsonValue) {b : BatchProgress}
    → check_progress n id i t ≡ returns b
    → IsKept b.batch_id
unfolding check_progress
progress-IsKept n id i t h =
    let (_, h) = require-inversion (n == 3) unexpected_batch _ h in
    let (_, h) =
      require-inversion (not (is_null id || is_null i || is_null t)) incomplete_batch _ h in
    let (batch, call, h) = bind-inversion (check_canonical batch_not_canonical id) _ h in
    let (range, got, made) = bind-inversion (check_range i t) _ h in
    subst (λ (b : BatchProgress). IsKept b.batch_id) (returns-inj made)
      (canonical_kept_as_written batch_not_canonical id call)

pub batch-IsKept :
    (n : ℕ) (id i t : JsonValue) {b : BatchProgress}
    → check_batch n id i t ≡ returns b
    → IsKept b.batch_id
unfolding check_batch
batch-IsKept n id i t h = elim (Bool-cases (is_null id && is_null i && is_null t)) [
  | inl e ↦ subst (λ (b : BatchProgress). IsKept b.batch_id) (returns-inj (if_true _ _ e h)) tt
  | inr e ↦ progress-IsKept n id i t (if_false _ _ e h)
]

pub get_loaded :
    (key : Text) (fields : Fields)
    → get_field key (loads_fields fields) ≡ map_some loads_value (get_field key fields)
unfolding get_field loads_fields
get_loaded key [] = refl
get_loaded key ((k, v) ∷ fields) = ground (arith, get_loaded key fields)
