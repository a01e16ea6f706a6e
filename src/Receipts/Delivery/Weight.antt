-- ===== src/Receipts/Delivery/Weight.antt =====
-- How much work is left for a message, at most.
use home_budget_pipeline.Prelude.{
  ℕ, zero, suc, ◌+◌, ◌*◌, ◌-◌, ◌≤◌, ◌<◌, Bool, true, false, not, ◌&&◌, Option, none, some, List, [],
  ◌∷◌, ◌++◌, ltb, if◌then◌else◌, ◌≡◌, refl, sym, ap, subst, ◌⊎◌, inl, inr, arith, ltb→lt,
  and-eq-true,
}
use home_budget_pipeline.Prelude.Result.{raises, returns}
use home_budget_pipeline.Receipts.Message.{ReceiptMessage, max_attempts, Checked}
use home_budget_pipeline.Receipts.Message.Encoding.{Body, to_bytes, from_bytes}
use home_budget_pipeline.Receipts.Delivery.{
  Queue, work, retry, dead, Action, published, result_published, acknowledged, Channel, Fate,
  arrives, next_fate, call, acknowledge, publish_results, next_attempt, route, transfer, after_work,
  after_results, after_reading, handle_worker_delivery, Outcome, finished, raised, is_invalid,
}
use home_budget_pipeline.Receipts.Delivery.Broker.{Broker, Waiting, handled}
use home_budget_pipeline.Receipts.Delivery.Transfer.{Reads, next_attempt-read}

-- The retries that a body has left.
abbrev pub retries_of : Checked ReceiptMessage → ℕ
retries_of (raises exc) = 0
retries_of (returns m) = max_attempts - m.attempt

abbrev pub retries : Body → ℕ
retries body = retries_of (from_bytes body)

-- The steps that one delivery pays for, its retry included.
abbrev pub cost : ℕ → ℕ
cost zero = 1
cost (suc r) = 21 * cost r + 3

abbrev pub waiting_weight : Waiting → ℕ
waiting_weight w = suc (20 - w.deliveries) * cost (retries w.body)

abbrev pub retry_weight : Body → ℕ
retry_weight b = suc (21 * cost (retries b))

abbrev pub work_weight : List Waiting → ℕ
work_weight [] = 0
work_weight (w ∷ ws) = waiting_weight w + work_weight ws

abbrev pub delay_weight : List Body → ℕ
delay_weight [] = 0
delay_weight (b ∷ bs) = retry_weight b + delay_weight bs

abbrev pub queue_gain : Queue → Body → ℕ
queue_gain work b = 21 * cost (retries b)
queue_gain retry b = retry_weight b
queue_gain dead b = 0

abbrev pair_gain : Queue × Body → ℕ
pair_gain (q, b) = queue_gain q b

cost_positive : (r : ℕ) → 1 ≤ cost r
cost_positive zero = omega arith
cost_positive (suc r) = omega arith

-- A retry is paid for by the delivery before it.
retry_cheaper :
    (n r : ℕ)
    → n < max_attempts
    → (r ≡ max_attempts - (n + 1)) ⊎ (r ≡ 0)
    → suc (21 * cost r) < cost (max_attempts - n)
retry_cheaper n r below h =
    let step : max_attempts - n ≡ suc (max_attempts - (n + 1)) = omega arith in
    subst (λ c. suc (21 * cost r) < cost c) (sym step)
      (elim h [
        | inl e ↦
            subst (λ c. suc (21 * cost c) < 21 * cost (max_attempts - (n + 1)) + 3) (sym e)
              (omega arith)
        | inr e ↦
            subst (λ c. suc (21 * cost c) < 21 * cost (max_attempts - (n + 1)) + 3) (sym e)
              (omega (arith, cost_positive (max_attempts - (n + 1))))
      ])

retries_next :
    (body : Body) (m : ReceiptMessage)
    → from_bytes body ≡ returns m
    → m.attempt < max_attempts
    → (retries (to_bytes (next_attempt m)) ≡ max_attempts - (m.attempt + 1))
      ⊎ (retries (to_bytes (next_attempt m)) ≡ 0)
retries_next body m h below = elim (next_attempt-read body m h below) [
  | inl e ↦ inl (ap retries_of e)
  | inr e ↦ inr (ap retries_of e)
]

gain-if :
    (test : Bool) (here there : Body) {c : ℕ}
    → (test ≡ true → retry_weight here < c)
    → 1 ≤ c
    → pair_gain (if test then (retry, here) else (dead, there)) < c
gain-if true here there h low = h refl
gain-if false here there h low = low

gain-route :
    (message : Option ReceiptMessage) (permanent : Bool) (body : Body)
    → Reads body message
    → pair_gain (route message permanent body) < cost (retries body)
unfolding route
gain-route none permanent body h = cost_positive (retries body)
gain-route (some m) permanent body h =
    gain-if (not permanent && ltb m.attempt max_attempts) (to_bytes (next_attempt m)) body
      (λ e. retried (ltb→lt m.attempt max_attempts (and-eq-true (not permanent) _ e).1))
      (cost_positive (retries body))
  where
    retried :
        m.attempt < max_attempts → retry_weight (to_bytes (next_attempt m)) < cost (retries body)
    retried below =
        subst (λ c. retry_weight (to_bytes (next_attempt m)) < cost c) (sym (ap retries_of h))
          (retry_cheaper m.attempt (retries (to_bytes (next_attempt m))) below
            (retries_next body m h below))

module _ {Event : Type 0} where
  abbrev pub weight : Broker Event → ℕ
  weight s = work_weight s.work + delay_weight s.retry

  -- What an action adds.
  abbrev pub gain : Action Event → ℕ
  gain (published q b) = queue_gain q b
  gain _ = 0

  abbrev pub gains : List (Action Event) → ℕ
  gains [] = 0
  gains (a ∷ actions) = gain a + gains actions

  gains-last :
      (actions : List (Action Event)) (a : Action Event)
      → gains (actions ++ a ∷ []) ≡ gains actions + gain a
  gains-last [] a = omega arith
  gains-last (x ∷ actions) a = omega (arith, gains-last actions a)

  gains-if :
      (b : Bool) (actions : List (Action Event)) (a : Action Event)
      → gains (if b then actions ++ a ∷ [] else actions) ≤ gains actions + gain a
  gains-if true actions a = omega (arith, gains-last actions a)
  gains-if false actions a = omega arith

  gains-call :
      (a : Action Event) (channel : Channel Event)
      → gains (call a channel).1.actions ≤ gains channel.actions + gain a
  unfolding call
  gains-call a channel = gains-if (arrives (next_fate channel.fates).0) channel.actions a

  gains-results :
      (events : List Event) (channel : Channel Event)
      → gains (publish_results events channel).1.actions ≤ gains channel.actions
  unfolding publish_results
  gains-results [] channel = omega arith
  gains-results (event ∷ events) channel =
      let (returned, next) = call (result_published event) channel in
      results_next returned next (publish_results events next) (gains-results events next)
        (gains-call (result_published event) channel)
    where
      results_next :
          (returned : Bool) (next : Channel Event) (rest : Bool × Channel Event) {g : ℕ}
          → gains rest.1.actions ≤ gains next.actions
          → gains next.actions ≤ g + 0
          → gains (if returned then rest else (false, next)).1.actions ≤ g
      results_next true next rest h k = omega arith
      results_next false next rest h k = omega arith

  gains-acknowledge :
      (sent : Bool × Channel Event) → gains (acknowledge sent).actions ≤ gains sent.1.actions
  gains-acknowledge (true, channel) = omega (arith, gains-call acknowledged channel)
  gains-acknowledge (false, channel) = omega arith

  gains-transfer :
      (message : Option ReceiptMessage) (permanent : Bool) (body : Body) (channel : Channel Event)
      → Reads body message
      → gains (transfer message permanent body channel).actions
        < gains channel.actions + cost (retries body)
  unfolding transfer
  gains-transfer message permanent body channel reads =
      let (queue, next_body) = route message permanent body in
      omega (
        arith,
        gains-acknowledge (call (published queue next_body) channel),
        gains-call (published queue next_body) channel,
        gain-route message permanent body reads,
      )

  gains-after_results :
      (m : ReceiptMessage) (body : Body) (sent : Bool × Channel Event)
      → from_bytes body ≡ returns m
      → gains (after_results m body sent).actions < gains sent.1.actions + cost (retries body)
  gains-after_results m body (true, channel) reads =
      omega (arith, gains-call acknowledged channel, cost_positive (retries body))
  gains-after_results m body (false, channel) reads =
      gains-transfer (some m) false body channel reads

  gains-after_work :
      (m : ReceiptMessage) (body : Body) (outcome : Outcome Event) (channel : Channel Event)
      → from_bytes body ≡ returns m
      → gains (after_work m body outcome channel).actions
        < gains channel.actions + cost (retries body)
  unfolding after_work
  gains-after_work m body (raised exc) channel reads =
      gains-transfer (some m) (is_invalid exc) body channel reads
  gains-after_work m body (finished events) channel reads = omega (
    arith,
    gains-after_results m body (publish_results events channel) reads,
    gains-results events channel,
  )

  gains-after_reading :
      (process : ReceiptMessage → Outcome Event) (body : Body) (channel : Channel Event)
      (read : Checked ReceiptMessage)
      → from_bytes body ≡ read
      → gains (after_reading process body channel read).actions
        < gains channel.actions + cost (retries body)
  unfolding after_reading
  gains-after_reading process body channel (raises exc) h = gains-transfer none true body channel tt
  gains-after_reading process body channel (returns m) h =
      gains-after_work m body (process m) channel h

  -- A delivery adds less to the queues than it costs.
  pub gains-handled :
      (process : ReceiptMessage → Outcome Event) (fates : List Fate) (body : Body)
      → gains (handled process fates body) < cost (retries body)
  unfolding handle_worker_delivery
  gains-handled process fates body = omega (
    arith,
    gains-after_reading process body (record { fates = fates; actions = [] }) (from_bytes body)
        refl,
  )
