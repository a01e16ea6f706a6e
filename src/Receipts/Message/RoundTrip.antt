-- ===== src/Receipts/Message/RoundTrip.antt =====
-- receipts/message.py: what is published is read back.
use home_budget_pipeline.Receipts.Message.Surrogates.{
  HasNoPair, IsKept, join_pairs-same, join_pairs-HasNoPair, digest_kept_as_written, request-IsKept,
  batch-IsKept, get_loaded,
}
use home_budget_pipeline.Prelude.{
  [], ℕ, zero, suc, Bool, true, false, Option, none, some, leb, all, any, length, ◌≡◌, refl, ◌⊎◌,
  ◌≤◌, arith, sym, ap, subst, ◌∙◌, le→leb,
}
use home_budget_pipeline.Prelude.Int.{pos}
use home_budget_pipeline.Prelude.Text.{Text, codes}
use home_budget_pipeline.Prelude.Result.{returns, ◌>>◌, require, bind-inversion, returns-inj}
use home_budget_pipeline.Receipts.Message.{
  mode_name, string, null, JsonValue, integer, OcrMode, fresh, auto, ReceiptMessage,
  MessageArguments, Checked, too_long, new_message, equals_number, check_mode, check_version,
  check_request, check_batch, check_digest, check_reference, check_attempt, InvalidReceiptMessage,
}
use home_budget_pipeline.Prelude.Table.{map_some}
use home_budget_pipeline.Receipts.Message.Payload.{payload, dumps, json_of, number_value}
use home_budget_pipeline.Receipts.Message.Encoding.{
  loads, loads_fields, loads_value, join_pairs, join_first, Fields, or_default, to_bytes,
  from_bytes, from_document, json_fields, arguments, same_names, expected_names, get_field,
  has_version, object,
}
use home_budget_pipeline.Receipts.Message.Inversion.{
  option_text, FitsRequest, FitsBatch, FitsMode, fields_of, mode-inversion, version-inversion,
  digest-inversion, reference-inversion, attempt-inversion, request-inversion, batch-inversion,
}

-- The arguments as they are read from what is written.
abbrev loaded : MessageArguments → MessageArguments
loaded a = record {
  source_sha256 = loads_value a.source_sha256;
  source_reference = loads_value a.source_reference;
  attempt = loads_value a.attempt;
  version = loads_value a.version;
  request_id = loads_value a.request_id;
  batch_id = loads_value a.batch_id;
  batch_index = loads_value a.batch_index;
  batch_total = loads_value a.batch_total;
  ocr_mode = loads_value a.ocr_mode;
}

-- The fields that were published are the fields that are read.
abbrev ReadsBack : ReceiptMessage → Type 0
ReadsBack m =
    from_document (loads (object (json_fields (payload m)))) ≡ new_message (loaded (fields_of m))

abbrev message_of :
    Text → Text → ℕ → ℕ → Option Text → Option Text → Option ℕ → Option ℕ → OcrMode → ReceiptMessage
message_of sha reference attempt version request id index total mode = record {
  source_sha256 = sha;
  source_reference = reference;
  attempt = attempt;
  version = version;
  request_id = request;
  batch_id = id;
  batch_index = index;
  batch_total = total;
  ocr_mode = mode;
}

reads_back :
    (sha reference : Text) (attempt n : ℕ) (r id : Option Text) (i t : Option ℕ) (mode : OcrMode)
    → FitsRequest n r
    → FitsBatch n id i t
    → FitsMode n mode
    → ReadsBack (message_of sha reference attempt n r id i t mode)
unfolding from_document loads loads_fields join_pairs join_first payload json_fields expected_names
    same_names arguments get_field has_version equals_number all any
reads_back sha reference attempt (suc zero) none none none none fresh _ _ _ = refl
reads_back sha reference attempt (suc (suc zero)) (some r) none none none fresh _ _ _ = refl
reads_back sha reference attempt (suc (suc zero)) (some r) none none none auto _ _ _ = refl
reads_back sha reference attempt (suc (suc (suc zero))) (some r) none none none fresh _ _ _ = refl
reads_back sha reference attempt (suc (suc (suc zero))) (some r) (some id) (some i) (some t) fresh _
      _ _ =
    refl
reads_back sha reference attempt n r id i t mode a b c = ground arith

mode_fits :
    (n : ℕ) (mode : OcrMode)
    → (mode ≡ fresh) ⊎ (equals_number 2 (integer (pos n)) ≡ true)
    → FitsMode n mode
unfolding equals_number
mode_fits n fresh h = tt
mode_fits n auto h = ground arith

same_arguments :
    (a b : MessageArguments)
    → a.source_sha256 ≡ b.source_sha256
    → a.source_reference ≡ b.source_reference
    → a.attempt ≡ b.attempt
    → a.version ≡ b.version
    → a.request_id ≡ b.request_id
    → a.batch_id ≡ b.batch_id
    → a.batch_index ≡ b.batch_index
    → a.batch_total ≡ b.batch_total
    → a.ocr_mode ≡ b.ocr_mode
    → a ≡ b
same_arguments a b p q r s t u v w x = λ i. record {
  source_sha256 = p i;
  source_reference = q i;
  attempt = r i;
  version = s i;
  request_id = t i;
  batch_id = u i;
  batch_index = v i;
  batch_total = w i;
  ocr_mode = x i;
}

loads_option : (o : Option Text) → IsKept o → loads_value (option_text o) ≡ option_text o
loads_option none h = refl
loads_option (some s) h = ap string h

loads_number : (o : Option ℕ) → loads_value (json_of (number_value o)) ≡ json_of (number_value o)
loads_number none = refl
loads_number (some n) = refl

loads_mode : (mode : OcrMode) → loads_value (string (mode_name mode)) ≡ string (mode_name mode)
unfolding join_pairs join_first
loads_mode fresh = refl
loads_mode auto = refl

-- The texts of a message, other than its reference, are read as they were written.
abbrev AreKept : ReceiptMessage → Type 0
AreKept m = (join_pairs m.source_sha256 ≡ m.source_sha256) × IsKept m.request_id × IsKept m.batch_id

loaded_fields :
    (m : ReceiptMessage)
    → AreKept m
    → HasNoPair m.source_reference
    → loaded (fields_of m) ≡ fields_of m
loaded_fields m (sha, request, id) reference =
    same_arguments (loaded (fields_of m)) (fields_of m) (ap string sha)
      (ap string (join_pairs-same m.source_reference reference)) refl refl
      (loads_option m.request_id request) (loads_option m.batch_id id) (loads_number m.batch_index)
      (loads_number m.batch_total) (loads_mode m.ocr_mode)

-- What the constructor accepted are the fields of the message, and they are read back.
new_message-inversion :
    (a : MessageArguments) (m : ReceiptMessage)
    → new_message a ≡ returns m
    → (a ≡ fields_of m) × ReadsBack m × AreKept m
unfolding new_message
new_message-inversion a m h =
    let (mode, mode_call, h) = bind-inversion (check_mode a.ocr_mode a.version) _ h in
    let (n, version_call, h) = bind-inversion (check_version a.version) _ h in
    let (r, request_call, h) = bind-inversion (check_request n a.request_id) _ h in
    let (b, batch_call, h) =
      bind-inversion (check_batch n a.batch_id a.batch_index a.batch_total) _ h in
    let (sha, sha_call, h) = bind-inversion (check_digest a.source_sha256) _ h in
    let (reference, reference_call, h) = bind-inversion (check_reference a.source_reference) _ h in
    let (attempt, attempt_call, made) = bind-inversion (check_attempt a.attempt) _ h in
    let (is_version, low, high) = version-inversion a.version version_call in
    let (is_mode, mode_fit) = mode-inversion a.ocr_mode a.version mode_call in
    let (is_request, request_fit) = request-inversion n a.request_id low high request_call in
    let (is_id, is_index, is_total, batch_fit) =
      batch-inversion n a.batch_id a.batch_index a.batch_total batch_call in
    let found = message_of sha reference attempt n r b.batch_id b.batch_index b.batch_total mode in
    subst (λ m. (a ≡ fields_of m) × ReadsBack m × AreKept m) (returns-inj made)
      (
        same_arguments a (fields_of found) (digest-inversion a.source_sha256 sha_call)
            (reference-inversion a.source_reference reference_call)
            (attempt-inversion a.attempt attempt_call).0 is_version is_request is_id is_index
            is_total is_mode,
        reads_back sha reference attempt n r b.batch_id b.batch_index b.batch_total mode request_fit
            batch_fit
            (mode_fits n mode
              (subst (λ v. (mode ≡ fresh) ⊎ (equals_number 2 v ≡ true)) is_version mode_fit)),
        (
          digest_kept_as_written a.source_sha256 sha_call,
          request-IsKept n a.request_id request_call,
          batch-IsKept n a.batch_id a.batch_index a.batch_total batch_call,
        ),
      )

if_passes :
    (test : Bool) (exc : InvalidReceiptMessage) {rest : Checked ReceiptMessage}
    → test ≡ true
    → (require test exc >> rest) ≡ rest
if_passes true exc h = refl
if_passes false exc h = cc

-- A message that the constructor accepts, whose text has at most 8192 bytes, and in whose reference no
-- high surrogate stands directly before a low one, is read back from the body that is published for
-- it, without an error and with every field.
pub from_bytes-to_bytes :
    (a : MessageArguments) (m : ReceiptMessage)
    → new_message a ≡ returns m
    → length (dumps (payload m)) ≤ 8192
    → HasNoPair m.source_reference
    → from_bytes (to_bytes m) ≡ returns m
unfolding from_bytes to_bytes
from_bytes-to_bytes a m made short apart =
    let (fields, back, kept) = new_message-inversion a m made in
    if_passes (leb (length (dumps (payload m))) 8192) too_long (le→leb _ _ short)
    ∙ (back ∙ (ap new_message (loaded_fields m kept apart ∙ sym fields) ∙ made))

abbrev text_in : JsonValue → Text
text_in (string s) = s
text_in _ = []

string-inj : {s t : Text} → string s ≡ string t → s ≡ t
string-inj e = ap text_in e

-- The reference of a message that was read has no pair.
pub read-HasNoPair :
    (value : Fields) (m : ReceiptMessage)
    → new_message (arguments (loads_fields value)) ≡ returns m
    → HasNoPair m.source_reference
unfolding arguments
read-HasNoPair value m made =
    let name = codes "source_reference" in
    loaded_reference (get_field name value) m.source_reference (
      ap (or_default null) (sym (get_loaded name value))
      ∙ ap (λ (x : MessageArguments). x.source_reference)
          (new_message-inversion (arguments (loads_fields value)) m made).0)
  where
    loaded_reference :
        (o : Option JsonValue) (s : Text)
        → or_default null (map_some loads_value o) ≡ string s
        → HasNoPair s
    loaded_reference none s e = cc
    loaded_reference (some (string t)) s e = subst HasNoPair (string-inj e) (join_pairs-HasNoPair t)
    loaded_reference (some v) s e = cc
