-- ===== src/Receipts/Message/Encoding.antt =====
-- receipts/message.py: `to_bytes` and `from_bytes`.
use home_budget_pipeline.Prelude.{
  ℕ, Bool, false, ◌&&◌, ◌||◌, Option, none, some, List, [], ◌∷◌, ◌++◌, ◌+◌, ◌*◌, ◌-◌, leb, all, any,
  length, is_some, if◌then◌else◌,
}
use home_budget_pipeline.Prelude.Int.{pos}
use home_budget_pipeline.Prelude.Text.{Text, codes, ◌==ₜ◌}
use home_budget_pipeline.Prelude.Result.{raises, ◌>>◌, require}
use home_budget_pipeline.Receipts.Message.{
  JsonValue, null, integer, string, fresh, mode_name, ReceiptMessage, MessageArguments, Checked,
  too_long, not_json, unexpected_fields, new_message, equals_number,
}
use home_budget_pipeline.Receipts.Message.Payload.{json_of, Payload, payload, dumps}

abbrev pub Fields : Type 0
Fields = List (Text × JsonValue)

-- What is written in a body: an object by its fields, each name once, another value, or no JSON. A
-- string stands by its codes, one for each `\u` escape below 0x10000.
pub data Document : Type 0 where
  object : Fields → Document
  no_object unreadable : Document

-- A body: its bytes, and what is written in them.
pub record Body : Type 0 where
  pub bytes : Text
  pub document : Document

unfoldable pub json_fields : Payload → Fields
json_fields [] = []
json_fields ((key, v) ∷ fields) = (key, json_of v) ∷ json_fields fields

unfoldable pub to_bytes : ReceiptMessage → Body
unfolding payload dumps json_fields
to_bytes m = record { bytes = dumps (payload m); document = object (json_fields (payload m)) }

abbrev pub is_high : ℕ → Bool
is_high c = leb 0xd800 c && leb c 0xdbff

abbrev pub is_low : ℕ → Bool
is_low c = leb 0xdc00 c && leb c 0xdfff

abbrev pub code_of_pair : ℕ → ℕ → ℕ
code_of_pair high low = 0x10000 + (high - 0xd800) * 1024 + (low - 0xdc00)

-- A high surrogate before a low one is read with it as one code.
unfoldable pub join_first : ℕ → Text → Text
join_first c [] = c ∷ []
join_first c (d ∷ s) = if is_high c && is_low d then code_of_pair c d ∷ s else c ∷ d ∷ s

unfoldable pub join_pairs : Text → Text
unfolding join_first
join_pairs [] = []
join_pairs (c ∷ s) = join_first c (join_pairs s)

abbrev pub loads_value : JsonValue → JsonValue
loads_value (string s) = string (join_pairs s)
loads_value v = v

unfoldable pub loads_fields : Fields → Fields
unfolding join_pairs
loads_fields [] = []
loads_fields ((key, v) ∷ fields) = (key, loads_value v) ∷ loads_fields fields

-- `json.loads`, of what is written in the body.
unfoldable pub loads : Document → Document
unfolding loads_fields
loads (object fields) = object (loads_fields fields)
loads no_object = no_object
loads unreadable = unreadable

-- `value.get(key)`
unfoldable pub get_field : Text → Fields → Option JsonValue
get_field key [] = none
get_field key ((k, v) ∷ fields) = if k ==ₜ key then some v else get_field key fields

abbrev pub or_default : JsonValue → Option JsonValue → JsonValue
or_default d none = d
or_default d (some v) = v

unfoldable pub has_version : ℕ → Option JsonValue → Bool
unfolding equals_number
has_version n none = false
has_version n (some v) = equals_number n v

abbrev pub required_names : List Text
required_names =
    codes "version" ∷ codes "source_sha256" ∷ codes "source_reference" ∷ codes "attempt" ∷ []

-- `fields`: the names that a message of this version has.
unfoldable pub expected_names : Fields → List Text
unfolding get_field has_version
expected_names value =
    let version = get_field (codes "version") value in
    required_names
    ++ ((if has_version 2 version || has_version 3 version then codes "request_id" ∷ [] else [])
        ++ ((if has_version 2 version && is_some (get_field (codes "ocr_mode") value)
              then codes "ocr_mode" ∷ []
              else [])
            ++ (if has_version 3 version && is_some (get_field (codes "batch_id") value)
                then codes "batch_id" ∷ codes "batch_index" ∷ codes "batch_total" ∷ []
                else [])))

abbrev pub is_name_of : Fields → Text → Bool
is_name_of value name = is_some (get_field name value)

-- `set(value) == fields`
unfoldable pub same_names : Fields → List Text → Bool
unfolding all any get_field
same_names value names =
    all (is_name_of value) names && all (λ (key, v). any (λ name. name ==ₜ key) names) value

-- `cls(**value)`: a field that is left out has its default.
unfoldable pub arguments : Fields → MessageArguments
unfolding get_field
arguments value = record {
  source_sha256 = or_default null (get_field (codes "source_sha256") value);
  source_reference = or_default null (get_field (codes "source_reference") value);
  attempt = or_default (integer (pos 1)) (get_field (codes "attempt") value);
  version = or_default (integer (pos 1)) (get_field (codes "version") value);
  request_id = or_default null (get_field (codes "request_id") value);
  batch_id = or_default null (get_field (codes "batch_id") value);
  batch_index = or_default null (get_field (codes "batch_index") value);
  batch_total = or_default null (get_field (codes "batch_total") value);
  ocr_mode = or_default (string (mode_name fresh)) (get_field (codes "ocr_mode") value);
}

unfoldable pub from_document : Document → Checked ReceiptMessage
unfolding expected_names same_names arguments new_message
from_document (object value) = do
  require (same_names value (expected_names value)) unexpected_fields
  new_message (arguments value)
from_document no_object = raises unexpected_fields
from_document unreadable = raises not_json

unfoldable pub from_bytes : Body → Checked ReceiptMessage
unfolding loads from_document
from_bytes body = do
  require (leb (length body.bytes) 8192) too_long
  from_document (loads body.document)
