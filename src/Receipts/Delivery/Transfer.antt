-- ===== src/Receipts/Delivery/Transfer.antt =====
-- What the next attempt of a message is read as.
use home_budget_pipeline.Receipts.Message.Surrogates.{HasNoPair}
use home_budget_pipeline.Prelude.{
  ℕ, ◌+◌, ◌<◌, Bool, true, false, Option, none, some, leb, leb→le, length, ◌≡◌, refl, ap, ◌∙◌, ◌⊎◌,
  inl, inr, Bool-cases, arith,
}
use home_budget_pipeline.Prelude.Int.{pos}
use home_budget_pipeline.Prelude.Result.{
  raises, returns, bind-inversion, require-inversion, returns-inj, ◌>>=◌, ◌>>◌, require,
}
use home_budget_pipeline.Receipts.Message.{
  ReceiptMessage, MessageArguments, new_message, check_mode, check_version, check_request,
  check_batch, check_digest, check_reference, check_attempt, max_attempts, too_long,
  unexpected_fields, Checked, integer,
}
use home_budget_pipeline.Receipts.Message.Payload.{payload, dumps}
use home_budget_pipeline.Receipts.Message.Encoding.{
  loads, loads_fields, Body, to_bytes, from_bytes, from_document, object, no_object, unreadable,
  same_names, expected_names, arguments, Document,
}
use home_budget_pipeline.Receipts.Message.RoundTrip.{read-HasNoPair, from_bytes-to_bytes}
use home_budget_pipeline.Receipts.Delivery.{next_attempt}

-- The body and the message that it was read as.
abbrev pub Reads : Body → Option ReceiptMessage → Type 0
Reads body none = Unit
Reads body (some m) = from_bytes body ≡ returns m

-- A body that is read is a message that the constructor accepts, and its reference has no pair.
loads-inversion :
    (d : Document) (m : ReceiptMessage)
    → from_document (loads d) ≡ returns m
    → (a : MessageArguments) × (new_message a ≡ returns m) × HasNoPair m.source_reference
unfolding from_document loads
loads-inversion (object fields) m h =
    let value = loads_fields fields in
    let (_, made) =
      require-inversion (same_names value (expected_names value)) unexpected_fields _ h in
    (arguments value, made, read-HasNoPair fields m made)
loads-inversion no_object m h = cc
loads-inversion unreadable m h = cc

from_bytes-inversion :
    (body : Body) (m : ReceiptMessage)
    → from_bytes body ≡ returns m
    → (a : MessageArguments) × (new_message a ≡ returns m) × HasNoPair m.source_reference
unfolding from_bytes
from_bytes-inversion body m h =
    loads-inversion body.document m
      (require-inversion (leb (length body.bytes) 8192) too_long _ h).1

bind-returns :
    {V W : Type 0} (call : Checked V) (next : V → Checked W) {v : V}
    → call ≡ returns v
    → (call >>= next) ≡ next v
bind-returns call next h = ap (λ c. c >>= next) h

attempt_accepted :
    (n : ℕ) → n < max_attempts → check_attempt (integer (pos (n + 1))) ≡ returns (n + 1)
unfolding check_attempt
attempt_accepted n h = ground arith

-- A retry stays within the checks of the constructor.
next_attempt-accepted :
    (a : MessageArguments) (m : ReceiptMessage)
    → new_message a ≡ returns m
    → m.attempt < max_attempts
    → new_message (record a { attempt = integer (pos (m.attempt + 1)) }) ≡ returns (next_attempt m)
unfolding new_message
next_attempt-accepted a m h below =
    let (mode, mode_call, h) = bind-inversion (check_mode a.ocr_mode a.version) _ h in
    let (n, version_call, h) = bind-inversion (check_version a.version) _ h in
    let (r, request_call, h) = bind-inversion (check_request n a.request_id) _ h in
    let (b, batch_call, h) =
      bind-inversion (check_batch n a.batch_id a.batch_index a.batch_total) _ h in
    let (sha, sha_call, h) = bind-inversion (check_digest a.source_sha256) _ h in
    let (reference, reference_call, h) = bind-inversion (check_reference a.source_reference) _ h in
    let (attempt, attempt_call, made) = bind-inversion (check_attempt a.attempt) _ h in
    bind-returns (check_mode a.ocr_mode a.version) _ mode_call
    ∙ (bind-returns (check_version a.version) _ version_call
        ∙ (bind-returns (check_request n a.request_id) _ request_call
            ∙ (bind-returns (check_batch n a.batch_id a.batch_index a.batch_total) _ batch_call
                ∙ (bind-returns (check_digest a.source_sha256) _ sha_call
                    ∙ (bind-returns (check_reference a.source_reference) _ reference_call
                        ∙ (bind-returns (check_attempt (integer (pos (m.attempt + 1)))) _
                              (attempt_accepted m.attempt below)
                            ∙ ap {A = ReceiptMessage}
                                (λ x. returns (record x { attempt = m.attempt + 1 }))
                                (returns-inj made)))))))

too_long_fails :
    (test : Bool) (rest : Checked ReceiptMessage)
    → test ≡ false
    → (require test too_long >> rest) ≡ raises too_long
too_long_fails false rest h = refl
too_long_fails true rest h = cc

-- The body of a retry is read as the next attempt, unless it is too long to be read.
pub next_attempt-read :
    (body : Body) (m : ReceiptMessage)
    → from_bytes body ≡ returns m
    → m.attempt < max_attempts
    → (from_bytes (to_bytes (next_attempt m)) ≡ returns (next_attempt m))
      ⊎ (from_bytes (to_bytes (next_attempt m)) ≡ raises too_long)
unfolding from_bytes to_bytes
next_attempt-read body m h below =
    let (a, made, apart) = from_bytes-inversion body m h in
    elim (Bool-cases (leb (length (dumps (payload (next_attempt m)))) 8192)) [
      | inl e ↦ inl (
          from_bytes-to_bytes (record a { attempt = integer (pos (m.attempt + 1)) })
            (next_attempt m) (next_attempt-accepted a m made below) (leb→le _ _ e) apart)
      | inr e ↦ inr (too_long_fails _ _ e)
    ]
