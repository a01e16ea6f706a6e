-- ===== src/Receipts/Delivery/Broker.antt =====
-- The broker between the handlers of receipts/queue_ingest.py: a delivery that is not acknowledged
-- comes back, at most as often as the queue declares; a message whose time to live is over goes to
-- the exchange that the queue declares.
use home_budget_pipeline.Prelude.{
  ℕ, suc, ◌+◌, Bool, true, false, Option, none, some, List, [], ◌∷◌, ◌++◌, ltb, if◌then◌else◌, ◌≡◌,
}
use home_budget_pipeline.Receipts.Message.{ReceiptMessage}
use home_budget_pipeline.Receipts.Message.Encoding.{Body}
use home_budget_pipeline.Receipts.Delivery.{
  Queue, work, retry, dead, Topology, declare_topology, Fate, Action, published, result_published,
  acknowledged, Outcome, handle_worker_delivery,
}

-- A message of the work queue, with the number of times that it came back.
pub record Waiting : Type 0 where
  pub body : Body
  pub deliveries : ℕ

pub record Broker (Event : Type 0) : Type 0 where
  pub work : List Waiting
  pub retry : List Body
  pub dead : List Body
  pub results : List Event

abbrev pub exceeds : ℕ → Option ℕ → Bool
exceeds n none = false
exceeds n (some limit) = ltb limit n

module _ {Event : Type 0} where
  abbrev pub put : Queue → Body → Broker Event → Broker Event
  put work b s = record s { work = s.work ++ record { body = b; deliveries = 0 } ∷ [] }
  put retry b s = record s { retry = s.retry ++ b ∷ [] }
  put dead b s = record s { dead = s.dead ++ b ∷ [] }

  -- A message without an exchange to go to is dropped.
  abbrev pub dead_letter : Option Queue → Body → Broker Event → Broker Event
  dead_letter none b s = s
  dead_letter (some q) b s = put q b s

  abbrev pub store : Action Event → Broker Event → Broker Event
  store (published q b) s = put q b s
  store (result_published e) s = record s { results = s.results ++ e ∷ [] }
  store acknowledged s = s

  unfoldable pub store_all : List (Action Event) → Broker Event → Broker Event
  store_all [] s = s
  store_all (a ∷ actions) s = store_all actions (store a s)

  abbrev pub is_acknowledgement : Action Event → Bool
  is_acknowledgement acknowledged = true
  is_acknowledgement _ = false

  unfoldable pub is_acknowledged : List (Action Event) → Bool
  is_acknowledged [] = false
  is_acknowledged (acknowledged ∷ actions) = true
  is_acknowledged (_ ∷ actions) = is_acknowledged actions

  -- The work queue after a delivery: the message is gone, comes back in its place, or came back too
  -- often.
  unfoldable pub leave :
      Topology → Bool → List Waiting → Waiting → List Waiting → Broker Event → Broker Event
  unfolding declare_topology
  leave topology true before w after s = record s { work = before ++ after }
  leave topology false before w after s =
      let declared = declare_topology topology work in
      if exceeds (w.deliveries + 1) declared.delivery_limit
      then dead_letter declared.dead_letter_exchange w.body (record s { work = before ++ after })
      else record s { work = before ++ record w { deliveries = w.deliveries + 1 } ∷ after }

  -- The actions of a delivery, by what happens to the worker and to the channel.
  abbrev pub handled : (ReceiptMessage → Outcome Event) → List Fate → Body → List (Action Event)
  handled process fates body =
      (handle_worker_delivery process body (record { fates = fates; actions = [] })).actions

  unfoldable pub delivered :
      Topology
      → (ReceiptMessage → Outcome Event)
      → List Fate
      → List Waiting
      → Waiting
      → List Waiting
      → Broker Event
      → Broker Event
  unfolding leave store_all is_acknowledged
  delivered topology process fates before w after s =
      let actions = handled process fates w.body in
      store_all actions (leave topology (is_acknowledged actions) before w after s)

  unfoldable pub expired : Topology → List Body → Body → List Body → Broker Event → Broker Event
  unfolding declare_topology
  expired topology before b after s =
      dead_letter (declare_topology topology retry).dead_letter_exchange b
        (record s { retry = before ++ after })

  module _ (topology : Topology) (process : ℕ → ReceiptMessage → Outcome Event) where
    -- One step: a delivery, whose processing may end otherwise at another moment, or the end of a
    -- message's time in the retry queue.
    infix 40 ◌⟶◌
    pub data ◌⟶◌ : Broker Event → Broker Event → Type 0 where
      deliver :
          (moment : ℕ) (fates : List Fate) (before : List Waiting) (w : Waiting)
          (after : List Waiting) (s : Broker Event)
          → s.work ≡ before ++ w ∷ after
          → s ⟶ delivered topology (process moment) fates before w after s
      expire :
          (before : List Body) (b : Body) (after : List Body) (s : Broker Event)
          → s.retry ≡ before ++ b ∷ after
          → s ⟶ expired topology before b after s

    -- n steps, one after the other.
    pub data Steps : ℕ → Broker Event → Broker Event → Type 0 where
      halt : (s : Broker Event) → Steps 0 s s
      step : {n : ℕ} {s t u : Broker Event} → s ⟶ t → Steps n t u → Steps (suc n) s u
