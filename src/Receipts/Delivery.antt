-- ===== src/Receipts/Delivery.antt =====
-- receipts/queue_ingest.py: the queues of the receipt work, and the handling of one delivery.
pub mod Broker
mod Transfer
mod Weight
pub mod Termination
mod Handled
mod Acknowledged
mod Places
pub mod Conservation
pub mod Settling
mod Direct
mod Examples
use home_budget_pipeline.Prelude.{
  ℕ, ◌+◌, Bool, true, false, not, ◌&&◌, Option, none, some, List, [], ◌∷◌, ◌++◌, ltb, if◌then◌else◌,
}
use home_budget_pipeline.Prelude.Text.{Text, codes}
use home_budget_pipeline.Prelude.Result.{raises, returns}
use home_budget_pipeline.Receipts.Message.{ReceiptMessage, Checked, max_attempts}
use home_budget_pipeline.Receipts.Message.Encoding.{Body, to_bytes, from_bytes}

pub data Queue : Type 0 where
  work retry dead : Queue

pub record Topology : Type 0 where
  pub prefix : Text
  pub retry_delay_ms : ℕ

unfoldable pub queue_name : Topology → Queue → Text
queue_name topology work = topology.prefix ++ codes ".work"
queue_name topology retry = topology.prefix ++ codes ".retry"
queue_name topology dead = topology.prefix ++ codes ".dead"

-- The arguments of a declared queue: `x-max-length`, `x-dead-letter-exchange`, `x-delivery-limit` and
-- `x-message-ttl`.
pub record QueueArguments : Type 0 where
  pub max_length : ℕ
  pub dead_letter_exchange : Option Queue
  pub delivery_limit : Option ℕ
  pub message_ttl : Option ℕ

unfoldable pub declare_topology : Topology → Queue → QueueArguments
declare_topology topology work = record {
  max_length = 100000;
  dead_letter_exchange = some dead;
  delivery_limit = some 20;
  message_ttl = none;
}
declare_topology topology retry = record {
  max_length = 100000;
  dead_letter_exchange = some work;
  delivery_limit = none;
  message_ttl = some topology.retry_delay_ms;
}
declare_topology topology dead = record {
  max_length = 100000;
  dead_letter_exchange = none;
  delivery_limit = none;
  message_ttl = none;
}

-- The exceptions of the processing, by what the handlers tell apart.
pub data ProcessError : Type 0 where
  invalid_message retry_exhausted other_error : ProcessError

-- What becomes of a publication or of an acknowledgement: the call returns; it raises and the
-- broker has nothing of it; or it raises and the broker has it all the same.
pub data Fate : Type 0 where
  confirmed refused unconfirmed : Fate

abbrev pub is_confirmed : Fate → Bool
is_confirmed confirmed = true
is_confirmed _ = false

abbrev pub arrives : Fate → Bool
arrives refused = false
arrives _ = true

-- What the broker has got from the handler.
pub data Action (Event : Type 0) : Type 0 where
  published : Queue → Body → Action Event
  result_published : Event → Action Event
  acknowledged : Action Event

-- `process`: the result events, or an exception.
pub data Outcome (Event : Type 0) : Type 0 where
  finished : List Event → Outcome Event
  raised : ProcessError → Outcome Event

-- A channel: what becomes of the next calls, and the actions so far, the first one first.
pub record Channel (Event : Type 0) : Type 0 where
  pub fates : List Fate
  pub actions : List (Action Event)

-- After the calls whose fate is given, every call is confirmed.
abbrev pub next_fate : List Fate → Fate × List Fate
next_fate [] = (confirmed, [])
next_fate (f ∷ fates) = (f, fates)

abbrev pub next_attempt : ReceiptMessage → ReceiptMessage
next_attempt m = record m { attempt = m.attempt + 1 }

-- Where a body goes whose handling raised, and the body that goes there.
unfoldable pub route : Option ReceiptMessage → Bool → Body → Queue × Body
unfolding to_bytes
route none permanent body = (dead, body)
route (some m) permanent body =
    if not permanent && ltb m.attempt max_attempts
    then (retry, to_bytes (next_attempt m))
    else (dead, body)

abbrev pub is_invalid : ProcessError → Bool
is_invalid invalid_message = true
is_invalid _ = false

abbrev is_permanent : ProcessError → Bool
is_permanent other_error = false
is_permanent _ = true

module _ {Event : Type 0} where
  -- One call on the channel, and whether it returns.
  unfoldable pub call : Action Event → Channel Event → Bool × Channel Event
  call action channel =
      let (fate, fates) = next_fate channel.fates in
      (
        is_confirmed fate,
        record {
          fates = fates;
          actions = if arrives fate then channel.actions ++ action ∷ [] else channel.actions;
        },
      )

  -- `for event in events: publish_result(…)`
  unfoldable pub publish_results : List Event → Channel Event → Bool × Channel Event
  unfolding call
  publish_results [] channel = (true, channel)
  publish_results (event ∷ events) channel =
      let (returned, channel) = call (result_published event) channel in
      let rest = publish_results events channel in if returned then rest else (false, channel)

  abbrev pub acknowledge : Bool × Channel Event → Channel Event
  acknowledge (true, channel) = (call acknowledged channel).1
  acknowledge (false, channel) = channel

  -- `except Exception`: the transfer, and the acknowledgement if it was confirmed.
  unfoldable pub transfer : Option ReceiptMessage → Bool → Body → Channel Event → Channel Event
  unfolding route call
  transfer message permanent body channel =
      let (queue, next_body) = route message permanent body in
      acknowledge (call (published queue next_body) channel)

  -- What follows the publication of the results.
  abbrev pub after_results : ReceiptMessage → Body → Bool × Channel Event → Channel Event
  after_results m body (true, channel) = (call acknowledged channel).1
  after_results m body (false, channel) = transfer (some m) false body channel

  unfoldable pub after_work : ReceiptMessage → Body → Outcome Event → Channel Event → Channel Event
  unfolding transfer publish_results call
  after_work m body (raised exc) channel = transfer (some m) (is_invalid exc) body channel
  after_work m body (finished events) channel =
      after_results m body (publish_results events channel)

  -- What follows `ReceiptMessage.from_bytes(body)`.
  unfoldable pub after_reading :
      (ReceiptMessage → Outcome Event)
      → Body
      → Channel Event
      → Checked ReceiptMessage
      → Channel Event
  unfolding after_work transfer
  after_reading process body channel (raises exc) = transfer none true body channel
  after_reading process body channel (returns m) = after_work m body (process m) channel

  -- The worker that reads images, and publishes its results.
  unfoldable pub handle_worker_delivery :
      (ReceiptMessage → Outcome Event) → Body → Channel Event → Channel Event
  unfolding from_bytes after_reading
  handle_worker_delivery process body channel = after_reading process body channel (from_bytes body)

  -- The message was read, and its processing returned or raised.
  unfoldable pub after_process :
      ReceiptMessage → Body → Channel Event → Option ProcessError → Channel Event
  unfolding transfer call
  after_process m body channel none = (call acknowledged channel).1
  after_process m body channel (some exc) = transfer (some m) (is_permanent exc) body channel

  unfoldable pub after_direct_reading :
      (ReceiptMessage → Option ProcessError)
      → Body
      → Channel Event
      → Checked ReceiptMessage
      → Channel Event
  unfolding after_process transfer
  after_direct_reading process body channel (raises exc) = transfer none true body channel
  after_direct_reading process body channel (returns m) = after_process m body channel (process m)

  -- The worker that writes to the database itself; no results are published.
  unfoldable pub handle_delivery :
      (ReceiptMessage → Option ProcessError) → Body → Channel Event → Channel Event
  unfolding from_bytes after_direct_reading
  handle_delivery process body channel = after_direct_reading process body channel (from_bytes body)
