-- ===== src/Receipts/Message/Inversion.antt =====
-- receipts/message.py: what a check that passed says of the value.
use home_budget_pipeline.Prelude.{
  ℕ, true, false, not, ◌&&◌, ◌||◌, Option, none, some, ◌==◌, if◌then◌else◌, ◌≡◌, refl, ◌⊎◌, inl,
  inr, Bool-cases, if_true, if_false, ◌≤◌, arith, subst, ==_iff,
}
use home_budget_pipeline.Prelude.Int.{pos, negsuc}
use home_budget_pipeline.Prelude.Text.{Text, ◌==ₜ◌, text_eq}
use home_budget_pipeline.Prelude.Result.{
  raises, returns, bind-inversion, require-inversion, returns-inj,
}
use home_budget_pipeline.Receipts.Message.{
  JsonValue, null, integer, string, OcrMode, fresh, auto, mode_name, ReceiptMessage,
  MessageArguments, equals_number, check_mode, check_version, check_request, check_batch,
  check_progress, check_digest, check_reference, check_attempt, check_canonical, check_range,
  BatchProgress, is_null, unexpected_batch, incomplete_batch, batch_not_canonical,
  normal_with_request, request_not_canonical, InvalidReceiptMessage, max_attempts,
}
use home_budget_pipeline.Receipts.Message.Payload.{json_of, text_value, number_value}

abbrev pub option_text : Option Text → JsonValue
option_text s = json_of (text_value s)

-- The arguments that are the fields of a message.
abbrev pub fields_of : ReceiptMessage → MessageArguments
fields_of m = record {
  source_sha256 = string m.source_sha256;
  source_reference = string m.source_reference;
  attempt = integer (pos m.attempt);
  version = integer (pos m.version);
  request_id = json_of (text_value m.request_id);
  batch_id = json_of (text_value m.batch_id);
  batch_index = json_of (number_value m.batch_index);
  batch_total = json_of (number_value m.batch_total);
  ocr_mode = string (mode_name m.ocr_mode);
}

pub mode-inversion :
    (j v : JsonValue) {mode : OcrMode}
    → check_mode j v ≡ returns mode
    → (j ≡ string (mode_name mode)) × ((mode ≡ fresh) ⊎ (equals_number 2 v ≡ true))
unfolding check_mode
mode-inversion (string s) v h = elim (Bool-cases (s ==ₜ mode_name fresh)) [
  | inl e ↦ ground (arith, text_eq s (mode_name fresh) e)
  | inr e ↦ elim (Bool-cases (s ==ₜ mode_name auto)) [
    | inl f ↦ ground (arith, text_eq s (mode_name auto) f)
    | inr f ↦ ground arith
  ]
]
mode-inversion _ v h = cc

pub version-inversion :
    (j : JsonValue) {n : ℕ}
    → check_version j ≡ returns n
    → (j ≡ integer (pos n)) × (1 ≤ n) × (n ≤ 3)
unfolding check_version
version-inversion (integer (pos m)) h = ground arith
version-inversion _ h = cc

canonical-inversion :
    (exc : InvalidReceiptMessage) (j : JsonValue) {s : Text}
    → check_canonical exc j ≡ returns s
    → j ≡ string s
unfolding check_canonical
canonical-inversion exc (string t) h = ground arith
canonical-inversion exc _ h = cc

range-inversion :
    (i n : JsonValue) {r : ℕ × ℕ}
    → check_range i n ≡ returns r
    → (i ≡ integer (pos (r.0))) × (n ≡ integer (pos (r.1)))
unfolding check_range
range-inversion (integer (pos i)) (integer (pos n)) h = ground arith
range-inversion (integer (pos i)) (integer (negsuc n)) h = cc
range-inversion (integer (negsuc i)) (integer n) h = cc
range-inversion _ _ h = cc

pub digest-inversion : (j : JsonValue) {s : Text} → check_digest j ≡ returns s → j ≡ string s
unfolding check_digest
digest-inversion (string t) h = ground arith
digest-inversion _ h = cc

pub reference-inversion : (j : JsonValue) {s : Text} → check_reference j ≡ returns s → j ≡ string s
unfolding check_reference
reference-inversion (string t) h = ground arith
reference-inversion _ h = cc

pub attempt-inversion :
    (j : JsonValue) {n : ℕ}
    → check_attempt j ≡ returns n
    → (j ≡ integer (pos n)) × (1 ≤ n) × (n ≤ max_attempts)
unfolding check_attempt
attempt-inversion (integer (pos m)) h = ground arith
attempt-inversion _ h = cc

-- What the checks leave of the version, the request, the batch and the mode.
abbrev pub FitsRequest : ℕ → Option Text → Type 0
FitsRequest n none = n ≡ 1
FitsRequest n (some id) = (2 ≤ n) × (n ≤ 3)

abbrev pub FitsBatch : ℕ → Option Text → Option ℕ → Option ℕ → Type 0
FitsBatch n none none none = Unit
FitsBatch n (some id) (some i) (some t) = n ≡ 3
FitsBatch n _ _ _ = ⊥

abbrev pub FitsMode : ℕ → OcrMode → Type 0
FitsMode n fresh = Unit
FitsMode n auto = n ≡ 2

absent-inversion :
    (j : JsonValue) {r : Option Text}
    → (if is_null j then returns none else raises normal_with_request) ≡ returns r
    → (j ≡ null) × (r ≡ none)
absent-inversion null h = (refl, cc)
absent-inversion _ h = cc

not_one : (n : ℕ) → (n == 1) ≡ false → 1 ≤ n → 2 ≤ n
not_one n e h = ground arith

pub request-inversion :
    (n : ℕ) (j : JsonValue) {r : Option Text}
    → 1 ≤ n
    → n ≤ 3
    → check_request n j ≡ returns r
    → (j ≡ option_text r) × FitsRequest n r
unfolding check_request
request-inversion n j low high h = elim (Bool-cases (n == 1)) [
  | inl e ↦ ground (arith, absent-inversion j (if_true _ _ e h))
  | inr e ↦
      let (id, call, made) =
        bind-inversion (check_canonical request_not_canonical j) _ (if_false _ _ e h) in
      subst (λ r. (j ≡ option_text r) × FitsRequest n r) (returns-inj made)
        (canonical-inversion request_not_canonical j call, (not_one n e low, high))
]

abbrev IsBatchOf : ℕ → JsonValue → JsonValue → JsonValue → BatchProgress → Type 0
IsBatchOf n id i t b =
    (id ≡ option_text b.batch_id)
    × (i ≡ json_of (number_value b.batch_index))
    × (t ≡ json_of (number_value b.batch_total))
    × FitsBatch n b.batch_id b.batch_index b.batch_total

progress-inversion :
    (n : ℕ) (id i t : JsonValue) {b : BatchProgress}
    → check_progress n id i t ≡ returns b
    → IsBatchOf n id i t b
unfolding check_progress
progress-inversion n id i t h =
    let (third, h) = require-inversion (n == 3) unexpected_batch _ h in
    let (complete, h) =
      require-inversion (not (is_null id || is_null i || is_null t)) incomplete_batch _ h in
    let (batch, call, h) = bind-inversion (check_canonical batch_not_canonical id) _ h in
    let (range, got, made) = bind-inversion (check_range i t) _ h in
    let (index, total) = range-inversion i t got in
    subst (λ b. IsBatchOf n id i t b) (returns-inj made)
      (canonical-inversion batch_not_canonical id call, index, total, (==_iff n 3).0 third)

null-inversion : (j : JsonValue) → is_null j ≡ true → j ≡ null
null-inversion null h = refl
null-inversion _ h = cc

pub batch-inversion :
    (n : ℕ) (id i t : JsonValue) {b : BatchProgress}
    → check_batch n id i t ≡ returns b
    → IsBatchOf n id i t b
unfolding check_batch
batch-inversion n id i t h = elim (Bool-cases (is_null id && is_null i && is_null t)) [
  | inl e ↦ ground (arith, null-inversion id, null-inversion i, null-inversion t)
  | inr e ↦ progress-inversion n id i t (if_false _ _ e h)
]
