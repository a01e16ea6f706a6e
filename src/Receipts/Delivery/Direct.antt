-- ===== src/Receipts/Delivery/Direct.antt =====
-- The handler without results is the worker's handler for a work that publishes nothing.
use home_budget_pipeline.Prelude.{◌≡◌, refl, Option, none, some, []}
use home_budget_pipeline.Prelude.Result.{raises, returns}
use home_budget_pipeline.Receipts.Message.{ReceiptMessage, Checked}
use home_budget_pipeline.Receipts.Message.Encoding.{Body, from_bytes}
use home_budget_pipeline.Receipts.Delivery.{
  ProcessError, invalid_message, retry_exhausted, other_error, Outcome, finished, raised, Channel,
  after_process, after_direct_reading, handle_delivery, after_work, after_reading,
  handle_worker_delivery, publish_results,
}

module _ {Event : Type 0} where
  -- A spent budget is as final as an invalid message.
  abbrev as_outcome : Option ProcessError → Outcome Event
  as_outcome none = finished []
  as_outcome (some retry_exhausted) = raised invalid_message
  as_outcome (some exc) = raised exc

  process_as_work :
      (m : ReceiptMessage) (body : Body) (channel : Channel Event) (o : Option ProcessError)
      → after_process m body channel o ≡ after_work m body (as_outcome o) channel
  unfolding after_process after_work publish_results
  process_as_work m body channel none = refl
  process_as_work m body channel (some invalid_message) = refl
  process_as_work m body channel (some retry_exhausted) = refl
  process_as_work m body channel (some other_error) = refl

  reading_as_work :
      (process : ReceiptMessage → Option ProcessError) (body : Body) (channel : Channel Event)
      (read : Checked ReceiptMessage)
      → after_direct_reading process body channel read
        ≡ after_reading (λ m. as_outcome (process m)) body channel read
  unfolding after_direct_reading after_reading
  reading_as_work process body channel (raises exc) = refl
  reading_as_work process body channel (returns m) = process_as_work m body channel (process m)

  -- The handler without results does what the worker's handler does for a work that publishes
  -- nothing and for which a spent budget is final.
  handle_delivery_as_worker :
      (process : ReceiptMessage → Option ProcessError) (body : Body) (channel : Channel Event)
      → handle_delivery process body channel
        ≡ handle_worker_delivery (λ m. as_outcome (process m)) body channel
  unfolding handle_delivery handle_worker_delivery
  handle_delivery_as_worker process body channel =
      reading_as_work process body channel (from_bytes body)
