-- ===== src/Receipts/Message.antt =====
-- receipts/message.py: `ReceiptMessage`, its checks and its names. The fields of a message reach
-- the checks as values that `json.loads` reads.
pub mod Payload
pub mod Encoding
pub mod Surrogates
mod Inversion
pub mod RoundTrip
mod Examples
use home_budget_pipeline.Prelude.{
  ℕ, Bool, true, false, not, ◌&&◌, ◌||◌, Option, none, some, List, [], ◌∷◌, ◌++◌, leb, ◌==◌, all,
  any, if◌then◌else◌,
}
use home_budget_pipeline.Prelude.Int.{ℤ, pos, negsuc}
use home_budget_pipeline.Prelude.Text.{Text, codes, truthy, starts_with, ◌==ₜ◌}
use home_budget_pipeline.Prelude.Result.{Result, raises, returns, ◌>>=◌, ◌>>◌, require}
use home_budget_pipeline.Transactions.Allocations.{is_sha256, is_hex}

-- A value of JSON. A float is kept with the integer that it equals, if there is one; `composite`
-- is a list or an object.
pub data JsonValue : Type 0 where
  null composite : JsonValue
  boolean : Bool → JsonValue
  integer : ℤ → JsonValue
  float : Option ℤ → JsonValue
  string : Text → JsonValue

pub data OcrMode : Type 0 where
  fresh auto : OcrMode

pub record ReceiptMessage : Type 0 where
  pub source_sha256 : Text
  pub source_reference : Text
  pub attempt : ℕ
  pub version : ℕ
  pub request_id : Option Text
  pub batch_id : Option Text
  pub batch_index : Option ℕ
  pub batch_total : Option ℕ
  pub ocr_mode : OcrMode

-- The messages of `InvalidReceiptMessage`, the last three from `from_bytes`.
pub data InvalidReceiptMessage : Type 0 where
  ocr_mode_unknown unsupported_version normal_with_request request_not_canonical :
      InvalidReceiptMessage
  unexpected_batch incomplete_batch batch_not_canonical : InvalidReceiptMessage
  batch_not_integers batch_outside_total : InvalidReceiptMessage
  not_a_digest not_a_path outside_root invalid_attempt : InvalidReceiptMessage
  too_long not_json unexpected_fields : InvalidReceiptMessage

abbrev pub max_attempts : ℕ
max_attempts = 3

-- The arguments of the constructor, which are not checked yet.
pub record MessageArguments : Type 0 where
  pub source_sha256 : JsonValue
  pub source_reference : JsonValue
  pub attempt : JsonValue
  pub version : JsonValue
  pub request_id : JsonValue
  pub batch_id : JsonValue
  pub batch_index : JsonValue
  pub batch_total : JsonValue
  pub ocr_mode : JsonValue

-- `v == n`, where a float and a Boolean equal the integer of their value.
unfoldable pub equals_number : ℕ → JsonValue → Bool
equals_number n (integer (pos m)) = m == n
equals_number n (float (some (pos m))) = m == n
equals_number n (boolean true) = 1 == n
equals_number n (boolean false) = 0 == n
equals_number n _ = false

abbrev pub is_null : JsonValue → Bool
is_null null = true
is_null _ = false

-- `shape`: every `x` stands for a lowercase hexadecimal digit, and any other code for itself.
unfoldable pub has_shape : Text → Text → Bool
has_shape [] [] = true
has_shape [] (c ∷ s) = false
has_shape (x ∷ shape) [] = false
has_shape (x ∷ shape) (c ∷ s) =
    let rest = has_shape shape s in (if x == b'x' then is_hex c else x == c) && rest

-- `str(UUID(s)) == s`: the text is what a UUID prints as.
abbrev pub is_canonical : Text → Bool
is_canonical s = has_shape (codes "xxxxxxxx-xxxx-xxxx-xxxx-xxxxxxxxxxxx") s

-- `s.split(sep)`: the first part, and the parts after it.
unfoldable pub split_on : ℕ → Text → Text × List Text
split_on sep [] = ([], [])
split_on sep (c ∷ s) =
    let (part, parts) = split_on sep s in if c == sep then ([], part ∷ parts) else (c ∷ part, parts)

abbrev pub is_escaping : Text → Bool
is_escaping part = part ==ₜ [] || part ==ₜ codes "." || part ==ₜ codes ".."

abbrev pub mode_name : OcrMode → Text
mode_name fresh = codes "fresh"
mode_name auto = codes "auto"

abbrev pub Checked : Type 0 → Type 0
Checked V = Result InvalidReceiptMessage V

unfoldable pub check_mode : JsonValue → JsonValue → Checked OcrMode
unfolding equals_number
check_mode (string s) version =
    if s ==ₜ mode_name fresh
    then returns fresh
    else if s ==ₜ mode_name auto && equals_number 2 version
    then returns auto
    else raises ocr_mode_unknown
check_mode _ version = raises ocr_mode_unknown

unfoldable pub check_version : JsonValue → Checked ℕ
check_version (integer (pos n)) =
    if leb 1 n && leb n 3 then returns n else raises unsupported_version
check_version _ = raises unsupported_version

unfoldable pub check_canonical : InvalidReceiptMessage → JsonValue → Checked Text
unfolding has_shape
check_canonical exc (string s) = if is_canonical s then returns s else raises exc
check_canonical exc _ = raises exc

unfoldable pub check_request : ℕ → JsonValue → Checked (Option Text)
unfolding check_canonical
check_request version request =
    if version == 1
    then (if is_null request then returns none else raises normal_with_request)
    else do id ← check_canonical request_not_canonical request; returns (some id)

unfoldable pub check_range : JsonValue → JsonValue → Checked (ℕ × ℕ)
check_range (integer (pos i)) (integer (pos n)) =
    if leb 1 i && leb i n then returns (i, n) else raises batch_outside_total
check_range (integer (negsuc i)) (integer n) = raises batch_outside_total
check_range (integer (pos i)) (integer (negsuc n)) = raises batch_outside_total
check_range _ _ = raises batch_not_integers

-- The batch fields that are checked.
pub record BatchProgress : Type 0 where
  pub batch_id : Option Text
  pub batch_index : Option ℕ
  pub batch_total : Option ℕ

abbrev pub no_batch : BatchProgress
no_batch = record { batch_id = none; batch_index = none; batch_total = none }

abbrev pub batch_of : Text → ℕ × ℕ → BatchProgress
batch_of id (index, total) = record {
  batch_id = some id;
  batch_index = some index;
  batch_total = some total;
}

-- The checks of batch fields of which one is given.
unfoldable pub check_progress : ℕ → JsonValue → JsonValue → JsonValue → Checked BatchProgress
unfolding check_canonical check_range
check_progress version id index total = do
  require (version == 3) unexpected_batch
  require (not (is_null id || is_null index || is_null total)) incomplete_batch
  batch ← check_canonical batch_not_canonical id
  range ← check_range index total
  returns (batch_of batch range)

unfoldable pub check_batch : ℕ → JsonValue → JsonValue → JsonValue → Checked BatchProgress
unfolding check_progress
check_batch version id index total =
    if is_null id && is_null index && is_null total
    then returns no_batch
    else check_progress version id index total

unfoldable pub check_digest : JsonValue → Checked Text
unfolding is_sha256
check_digest (string s) = if is_sha256 s then returns s else raises not_a_digest
check_digest _ = raises not_a_digest

-- `bool(ref)`, with no backslash and no code 0.
abbrev pub is_posix : Text → Bool
is_posix ref = truthy ref && all (λ c. not (c == 92 || c == 0)) ref

abbrev pub stays_under_root : Text → Bool
stays_under_root ref =
    let (part, parts) = split_on b'/' ref in
    not (starts_with (codes "/") ref) && not (any is_escaping (part ∷ parts))

unfoldable pub check_reference : JsonValue → Checked Text
unfolding all any split_on starts_with
check_reference (string ref) =
    if is_posix ref
    then (if stays_under_root ref then returns ref else raises outside_root)
    else raises not_a_path
check_reference _ = raises not_a_path

unfoldable pub check_attempt : JsonValue → Checked ℕ
check_attempt (integer (pos n)) =
    if leb 1 n && leb n max_attempts then returns n else raises invalid_attempt
check_attempt _ = raises invalid_attempt

-- The constructor, whose `__post_init__` makes the checks in this order.
unfoldable pub new_message : MessageArguments → Checked ReceiptMessage
unfolding check_mode check_version check_request check_batch check_digest check_reference
    check_attempt
new_message a = do
  mode ← check_mode a.ocr_mode a.version
  version ← check_version a.version
  request ← check_request version a.request_id
  batch ← check_batch version a.batch_id a.batch_index a.batch_total
  digest ← check_digest a.source_sha256
  reference ← check_reference a.source_reference
  attempt ← check_attempt a.attempt
  returns record {
    source_sha256 = digest;
    source_reference = reference;
    attempt = attempt;
    version = version;
    request_id = request;
    batch_id = batch.batch_id;
    batch_index = batch.batch_index;
    batch_total = batch.batch_total;
    ocr_mode = mode;
  }

-- `bool(request_id)`
abbrev pub is_requested : Option Text → Bool
is_requested none = false
is_requested (some id) = truthy id

unfoldable pub message_type : ReceiptMessage → Text
message_type m =
    if m.version == 3
    then codes "receipt.cache-rebuild.v3"
    else if is_requested m.request_id
    then codes "receipt.reprocess.v2"
    else codes "receipt.process.v1"

abbrev pub text_of : Option Text → Text
text_of none = []
text_of (some s) = s

unfoldable pub message_id : ReceiptMessage → Text
unfolding message_type
message_id m =
    if is_requested m.request_id
    then message_type m ++ b':' ∷ m.source_sha256 ++ b':' ∷ text_of m.request_id
    else codes "receipt.v1:" ++ m.source_sha256
