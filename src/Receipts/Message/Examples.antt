-- ===== src/Receipts/Message/Examples.antt =====
-- Runs of the checks and of the encoding.
use home_budget_pipeline.Receipts.Message.Surrogates.{HasNoPair}
use home_budget_pipeline.Prelude.{◌∷◌, [], ◌≡◌, refl, all, any, length, some, none, arith, ◌≤◌}
use home_budget_pipeline.Prelude.Int.{pos}
use home_budget_pipeline.Prelude.Text.{Text, codes, starts_with}
use home_budget_pipeline.Prelude.Result.{raises, returns}
use home_budget_pipeline.Transactions.Allocations.{is_sha256}
use home_budget_pipeline.Receipts.Message.{
  integer, string, null, auto, MessageArguments, ReceiptMessage, equals_number, has_shape, split_on,
  check_mode, check_version, check_canonical, check_request, check_range, check_batch, check_digest,
  check_reference, check_attempt, new_message, outside_root, message_id, message_type,
}
use home_budget_pipeline.Receipts.Message.Payload.{
  payload, digits, escape, escaped, dumps, dumps_value, dumps_fields,
}
use home_budget_pipeline.Receipts.Message.Encoding.{join_pairs, join_first, from_bytes, to_bytes}
use home_budget_pipeline.Receipts.Message.RoundTrip.{from_bytes-to_bytes}

abbrev digest : Text
digest = codes "0123456789abcdef0123456789abcdef0123456789abcdef0123456789abcdef"

abbrev request : Text
request = codes "6ba7b810-9dad-11d1-80b4-00c04fd430c8"

-- A cached request for a file of the receipts, as the constructor is given it.
abbrev reuse_of : Text → MessageArguments
reuse_of reference = record {
  source_sha256 = string digest;
  source_reference = string reference;
  attempt = integer (pos 1);
  version = integer (pos 2);
  request_id = string request;
  batch_id = null;
  batch_index = null;
  batch_total = null;
  ocr_mode = string (codes "auto");
}

abbrev reuse : ReceiptMessage
reuse = record {
  source_sha256 = digest;
  source_reference = codes "2026/shop \"a\".pdf";
  attempt = 1;
  version = 2;
  request_id = some request;
  batch_id = none;
  batch_index = none;
  batch_total = none;
  ocr_mode = auto;
}

accepts_request : new_message (reuse_of (codes "2026/shop \"a\".pdf")) ≡ returns reuse
unfolding new_message check_mode check_version check_canonical check_request check_range check_batch
    check_digest check_reference check_attempt has_shape split_on equals_number is_sha256
    starts_with all any
accepts_request = refl

refuses_escape : new_message (reuse_of (codes "2026/../shop.pdf")) ≡ raises outside_root
unfolding new_message check_mode check_version check_canonical check_request check_range check_batch
    check_digest check_reference check_attempt has_shape split_on equals_number is_sha256
    starts_with all any
refuses_escape = refl

prints_request :
    dumps (payload reuse)
    ≡ codes
        "{\"attempt\":1,\"ocr_mode\":\"auto\",\"request_id\":\"6ba7b810-9dad-11d1-80b4-00c04fd430c8\",\"source_reference\":\"2026/shop \\\"a\\\".pdf\",\"source_sha256\":\"0123456789abcdef0123456789abcdef0123456789abcdef0123456789abcdef\",\"version\":2}"
unfolding payload digits escape escaped dumps dumps_value dumps_fields
prints_request = refl

is_short : length (dumps (payload reuse)) ≤ 8192
unfolding payload digits escape escaped dumps dumps_value dumps_fields
is_short = omega arith

names_request :
    message_id reuse
    ≡ codes
        "receipt.reprocess.v2:0123456789abcdef0123456789abcdef0123456789abcdef0123456789abcdef:6ba7b810-9dad-11d1-80b4-00c04fd430c8"
unfolding message_id message_type
names_request = refl

-- A pair of surrogates in a reference is read back as one code.
pair_joined : join_pairs (0xd83d ∷ 0xde00 ∷ []) ≡ 0x1f600 ∷ []
unfolding join_pairs join_first
pair_joined = refl

reference_apart : HasNoPair reuse.source_reference
reference_apart = ground arith

from_bytes-to_bytes_example : from_bytes (to_bytes reuse) ≡ returns reuse
from_bytes-to_bytes_example =
    from_bytes-to_bytes (reuse_of (codes "2026/shop \"a\".pdf")) reuse accepts_request is_short
      reference_apart
