-- ===== src/Receipts/Delivery/Acknowledged.antt =====
-- An acknowledged delivery was answered or passed on.
use home_budget_pipeline.Prelude.{
  Bool, true, false, not, ◌&&◌, Option, none, some, List, [], ◌∷◌, ltb, if◌then◌else◌, ◌≡◌, refl,
  ◌⊎◌, inl, inr,
}
use home_budget_pipeline.Prelude.Listed.{Listed}
use home_budget_pipeline.Prelude.Result.{raises, returns}
use home_budget_pipeline.Receipts.Message.{ReceiptMessage, max_attempts, Checked}
use home_budget_pipeline.Receipts.Message.Encoding.{Body, to_bytes, from_bytes}
use home_budget_pipeline.Receipts.Delivery.{
  Queue, retry, dead, Action, published, result_published, acknowledged, Channel, Fate, call,
  acknowledge, publish_results, next_attempt, route, transfer, after_work, after_results,
  after_reading, handle_worker_delivery, Outcome, finished, raised, is_invalid,
}
use home_budget_pipeline.Receipts.Delivery.Broker.{is_acknowledged, handled}
use home_budget_pipeline.Receipts.Delivery.Transfer.{Reads}
use home_budget_pipeline.Receipts.Delivery.Handled.{
  Follows, same, later, PassedOn, AllPublished, Answered, IsSilent, IsSilent-call, Listed-call,
  call_arrives,
}

abbrev Sent : {Event : Type 0} → Queue × Body → List (Action Event) → Type 0
Sent (q, b) actions = Listed (published q b) actions

module _ {Event : Type 0} where
  passed-if :
      (test : Bool) (b next : Body) (actions : List (Action Event))
      → Follows b next
      → Sent (if test then (retry, next) else (dead, b)) actions
      → PassedOn b actions
  passed-if true b next actions f h = (next, f, inl h)
  passed-if false b next actions f h = (b, same, inr h)

  passed-route :
      (message : Option ReceiptMessage) (permanent : Bool) (body : Body)
      (actions : List (Action Event))
      → Reads body message
      → Sent (route message permanent body) actions
      → PassedOn body actions
  unfolding route
  passed-route none permanent body actions reads h = (body, same, inr h)
  passed-route (some m) permanent body actions reads h =
      passed-if (not permanent && ltb m.attempt max_attempts) body (to_bytes (next_attempt m))
        actions (later same reads) h

  sent-acknowledge :
      (a : Action Event) (sent : Bool × Channel Event)
      → IsSilent sent.1
      → (sent.0 ≡ true → Listed a sent.1.actions)
      → is_acknowledged (acknowledge sent).actions ≡ true
      → Listed a (acknowledge sent).actions
  sent-acknowledge a (true, channel) silent arrived h =
      Listed-call a acknowledged channel (arrived refl)
  sent-acknowledge a (false, channel) silent arrived h = cc

  passed-transfer :
      (message : Option ReceiptMessage) (permanent : Bool) (body : Body) (channel : Channel Event)
      → Reads body message
      → IsSilent channel
      → is_acknowledged (transfer message permanent body channel).actions ≡ true
      → PassedOn body (transfer message permanent body channel).actions
  unfolding transfer
  passed-transfer message permanent body channel reads silent h =
      let (queue, next_body) = route message permanent body in
      let publication : Action Event = published queue next_body in
      passed-route message permanent body _ reads (
        sent-acknowledge publication (call publication channel)
          (IsSilent-call publication channel refl silent) (call_arrives publication channel) h)

  IsSilent-results :
      (events : List Event) (channel : Channel Event)
      → IsSilent channel
      → IsSilent (publish_results events channel).1
  unfolding publish_results
  IsSilent-results [] channel silent = silent
  IsSilent-results (event ∷ events) channel silent =
      let (returned, next) = call (result_published event) channel in
      if-silent returned next (publish_results events next)
        (IsSilent-call (result_published event) channel refl silent)
        (IsSilent-results events next (IsSilent-call (result_published event) channel refl silent))
    where
      if-silent :
          (returned : Bool) (next : Channel Event) (rest : Bool × Channel Event)
          → IsSilent next
          → IsSilent rest.1
          → IsSilent (if returned then rest else (false, next)).1
      if-silent true next rest h k = k
      if-silent false next rest h k = h

  Listed-results :
      (x : Action Event) (events : List Event) (channel : Channel Event)
      → Listed x channel.actions
      → Listed x (publish_results events channel).1.actions
  unfolding publish_results
  Listed-results x [] channel h = h
  Listed-results x (event ∷ events) channel h =
      let (returned, next) = call (result_published event) channel in
      if-listed returned next (publish_results events next)
        (Listed-call x (result_published event) channel h)
        (Listed-results x events next (Listed-call x (result_published event) channel h))
    where
      if-listed :
          (returned : Bool) (next : Channel Event) (rest : Bool × Channel Event)
          → Listed x next.actions
          → Listed x rest.1.actions
          → Listed x (if returned then rest else (false, next)).1.actions
      if-listed true next rest h k = k
      if-listed false next rest h k = h

  -- When the publication of the results returns, they have all arrived.
  results_arrive :
      (events : List Event) (channel : Channel Event)
      → (publish_results events channel).0 ≡ true
      → AllPublished events (publish_results events channel).1.actions
  unfolding publish_results
  results_arrive [] channel h = tt
  results_arrive (event ∷ events) channel h =
      let (returned, next) = call (result_published event) channel in
      if-all returned next (publish_results events next) h
        (λ e.
          Listed-results (result_published event) events next
            (call_arrives (result_published event) channel e))
        (results_arrive events next)
    where
      if-all :
          (returned : Bool) (next : Channel Event) (rest : Bool × Channel Event)
          → (if returned then rest else (false, next)).0 ≡ true
          → (returned ≡ true → Listed (result_published event) rest.1.actions)
          → (rest.0 ≡ true → AllPublished events rest.1.actions)
          → AllPublished (event ∷ events) (if returned then rest else (false, next)).1.actions
      if-all true next rest h first others = (first refl, others h)
      if-all false next rest h first others = cc

  published-call :
      (events : List Event) (a : Action Event) (channel : Channel Event)
      → AllPublished events channel.actions
      → AllPublished events (call a channel).1.actions
  published-call [] a channel h = tt
  published-call (event ∷ events) a channel h =
      (Listed-call (result_published event) a channel h.0, published-call events a channel h.1)

  -- What an acknowledged delivery of the body b did.
  abbrev pub Handled : (ReceiptMessage → Outcome Event) → Body → List (Action Event) → Type 0
  Handled process b actions = Answered process b actions ⊎ PassedOn b actions

  Handled-after_results :
      (process : ReceiptMessage → Outcome Event) (m : ReceiptMessage) (events : List Event)
      (body : Body) (sent : Bool × Channel Event)
      → from_bytes body ≡ returns m
      → process m ≡ finished events
      → IsSilent sent.1
      → (sent.0 ≡ true → AllPublished events sent.1.actions)
      → is_acknowledged (after_results m body sent).actions ≡ true
      → Handled process body (after_results m body sent).actions
  Handled-after_results process m events body (true, channel) reads done silent arrived h =
      inl (m, events, reads, done, published-call events acknowledged channel (arrived refl))
  Handled-after_results process m events body (false, channel) reads done silent arrived h =
      inr (passed-transfer (some m) false body channel reads silent h)

  Handled-after_work :
      (process : ReceiptMessage → Outcome Event) (m : ReceiptMessage) (body : Body)
      (outcome : Outcome Event) (channel : Channel Event)
      → from_bytes body ≡ returns m
      → process m ≡ outcome
      → IsSilent channel
      → is_acknowledged (after_work m body outcome channel).actions ≡ true
      → Handled process body (after_work m body outcome channel).actions
  unfolding after_work
  Handled-after_work process m body (raised exc) channel reads done silent h =
      inr (passed-transfer (some m) (is_invalid exc) body channel reads silent h)
  Handled-after_work process m body (finished events) channel reads done silent h =
      Handled-after_results process m events body (publish_results events channel) reads done
        (IsSilent-results events channel silent) (results_arrive events channel) h

  Handled-after_reading :
      (process : ReceiptMessage → Outcome Event) (body : Body) (channel : Channel Event)
      (read : Checked ReceiptMessage)
      → from_bytes body ≡ read
      → IsSilent channel
      → is_acknowledged (after_reading process body channel read).actions ≡ true
      → Handled process body (after_reading process body channel read).actions
  unfolding after_reading
  Handled-after_reading process body channel (raises exc) reads silent h =
      inr (passed-transfer none true body channel tt silent h)
  Handled-after_reading process body channel (returns m) reads silent h =
      Handled-after_work process m body (process m) channel reads refl silent h

  -- A delivery that is acknowledged was answered or passed on, whatever calls failed on the way.
  pub acknowledged-Handled :
      (process : ReceiptMessage → Outcome Event) (fates : List Fate) (body : Body)
      → is_acknowledged (handled process fates body) ≡ true
      → Handled process body (handled process fates body)
  unfolding handle_worker_delivery is_acknowledged
  acknowledged-Handled process fates body h =
      Handled-after_reading process body (record { fates = fates; actions = [] }) (from_bytes body)
        refl refl h
