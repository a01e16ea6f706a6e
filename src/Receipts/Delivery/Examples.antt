-- ===== src/Receipts/Delivery/Examples.antt =====
-- Runs of the deliveries, and instances of their theorems.
use home_budget_pipeline.Prelude.{◌≡◌, refl, ap, all, any, none, [], ◌∷◌, ℕ, ◌≤◌, ◌+◌, inl}
use home_budget_pipeline.Prelude.Text.{codes, starts_with}
use home_budget_pipeline.Transactions.Allocations.{is_sha256}
use home_budget_pipeline.Receipts.Message.{
  fresh, ReceiptMessage, equals_number, has_shape, split_on, check_mode, check_version,
  check_canonical, check_request, check_range, check_batch, check_digest, check_reference,
  check_attempt, new_message,
}
use home_budget_pipeline.Receipts.Message.Payload.{
  payload, digits, escape, escaped, dumps, dumps_value, dumps_fields,
}
use home_budget_pipeline.Receipts.Message.Encoding.{
  loads, loads_fields, join_pairs, join_first, Body, from_bytes, to_bytes, json_fields, get_field,
  has_version, expected_names, same_names, arguments, from_document, unreadable,
}
use home_budget_pipeline.Receipts.Delivery.{
  Topology, declare_topology, Outcome, finished, raised, other_error, confirmed, refused,
  unconfirmed, call, publish_results, route, transfer, after_work, after_reading,
  handle_worker_delivery, published, result_published, acknowledged, retry, dead, next_attempt,
}
use home_budget_pipeline.Receipts.Delivery.Broker.{
  Broker, Waiting, Steps, halt, step, deliver, delivered, leave, store_all, is_acknowledged,
  handled,
}
use home_budget_pipeline.Receipts.Delivery.Termination.{deliveries_end}
use home_budget_pipeline.Receipts.Delivery.Weight.{weight}
use home_budget_pipeline.Receipts.Delivery.Conservation.{no_message_lost, Settled}
use home_budget_pipeline.Receipts.Delivery.Settling.{messages_settle, Inevitably, AllSettled}

abbrev topology : Topology
topology = record { prefix = codes "receipts.v1"; retry_delay_ms = 60000 }

abbrev scan : ReceiptMessage
scan = record {
  source_sha256 = codes "0123456789abcdef0123456789abcdef0123456789abcdef0123456789abcdef";
  source_reference = codes "a.pdf";
  attempt = 1;
  version = 1;
  request_id = none;
  batch_id = none;
  batch_index = none;
  batch_total = none;
  ocr_mode = fresh;
}

abbrev scan_body : Body
unfolding to_bytes payload digits escape escaped dumps dumps_value dumps_fields json_fields
scan_body = to_bytes scan

-- Two result events, numbered.
abbrev reads_image : ℕ → ReceiptMessage → Outcome ℕ
reads_image moment m = finished (7 ∷ 8 ∷ [])

abbrev fails : ReceiptMessage → Outcome ℕ
fails m = raised other_error

publishes_and_acknowledges :
    handled (reads_image 0) [] scan_body
    ≡ result_published 7 ∷ result_published 8 ∷ acknowledged ∷ []
unfolding handle_worker_delivery after_reading after_work publish_results call from_bytes
    from_document loads loads_fields join_pairs join_first expected_names same_names arguments
    get_field has_version new_message check_mode check_version check_canonical check_request
    check_range check_batch check_digest check_reference check_attempt has_shape split_on
    equals_number is_sha256 starts_with all any
publishes_and_acknowledges = refl

-- The second result is not confirmed, although it arrived: the message goes to the retries.
retries_lost_confirmation :
    handled (reads_image 0) (confirmed ∷ unconfirmed ∷ []) scan_body
    ≡ result_published 7
      ∷ result_published 8
      ∷ published retry (to_bytes (next_attempt scan))
      ∷ acknowledged
      ∷ []
unfolding handle_worker_delivery after_reading after_work publish_results call transfer route
    to_bytes payload digits escape escaped dumps dumps_value dumps_fields json_fields from_bytes
    from_document loads loads_fields join_pairs join_first expected_names same_names arguments
    get_field has_version new_message check_mode check_version check_canonical check_request
    check_range check_batch check_digest check_reference check_attempt has_shape split_on
    equals_number is_sha256 starts_with all any
retries_lost_confirmation = refl

-- Without a confirmed transfer, nothing is acknowledged.
keeps_without_transfer : handled fails (refused ∷ []) scan_body ≡ []
unfolding handle_worker_delivery after_reading after_work publish_results call transfer route
    to_bytes payload digits escape escaped dumps dumps_value dumps_fields json_fields from_bytes
    from_document loads loads_fields join_pairs join_first expected_names same_names arguments
    get_field has_version new_message check_mode check_version check_canonical check_request
    check_range check_batch check_digest check_reference check_attempt has_shape split_on
    equals_number is_sha256 starts_with all any
keeps_without_transfer = refl

last_attempt_is_dead :
    handled fails [] (to_bytes (record scan { attempt = 3 }))
    ≡ published dead (to_bytes (record scan { attempt = 3 })) ∷ acknowledged ∷ []
unfolding handle_worker_delivery after_reading after_work publish_results call transfer route
    to_bytes payload digits escape escaped dumps dumps_value dumps_fields json_fields from_bytes
    from_document loads loads_fields join_pairs join_first expected_names same_names arguments
    get_field has_version new_message check_mode check_version check_canonical check_request
    check_range check_batch check_digest check_reference check_attempt has_shape split_on
    equals_number is_sha256 starts_with all any
last_attempt_is_dead = refl

garbage : Body
garbage = record { bytes = codes "{oops"; document = unreadable }

garbage_is_dead : handled fails [] garbage ≡ published dead garbage ∷ acknowledged ∷ []
unfolding handle_worker_delivery after_reading after_work publish_results call transfer route
    to_bytes payload digits escape escaped dumps dumps_value dumps_fields json_fields from_bytes
    from_document loads loads_fields join_pairs join_first expected_names same_names arguments
    get_field has_version new_message check_mode check_version check_canonical check_request
    check_range check_batch check_digest check_reference check_attempt has_shape split_on
    equals_number is_sha256 starts_with all any garbage
garbage_is_dead = refl

abbrev waiting : Waiting
waiting = record { body = scan_body; deliveries = 0 }

abbrev start : Broker ℕ
start = record { work = waiting ∷ []; retry = []; dead = []; results = [] }

abbrev after : Broker ℕ
after = delivered topology (reads_image 0) [] [] waiting [] start

one_delivery : Steps topology reads_image 1 start after
one_delivery = step (deliver 0 [] [] waiting [] start refl) (halt after)

after_is_empty : after ≡ record { work = []; retry = []; dead = []; results = 7 ∷ 8 ∷ [] }
unfolding handle_worker_delivery after_reading after_work publish_results call transfer route
    to_bytes payload digits escape escaped dumps dumps_value dumps_fields json_fields from_bytes
    from_document loads loads_fields join_pairs join_first expected_names same_names arguments
    get_field has_version new_message check_mode check_version check_canonical check_request
    check_range check_batch check_digest check_reference check_attempt has_shape split_on
    equals_number is_sha256 starts_with all any delivered leave store_all is_acknowledged
    declare_topology
after_is_empty = refl

no_message_lost_example : Settled topology reads_image scan_body after
no_message_lost_example =
    no_message_lost topology reads_image one_delivery (ap (λ s. s.work) after_is_empty)
      (ap (λ s. s.retry) after_is_empty) scan_body (inl refl)

deliveries_end_example : 1 + weight after ≤ weight start
deliveries_end_example = deliveries_end topology reads_image one_delivery

messages_settle_example :
    Inevitably topology reads_image (AllSettled topology reads_image start) start
messages_settle_example = messages_settle topology reads_image start
