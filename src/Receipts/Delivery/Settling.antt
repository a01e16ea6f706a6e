-- ===== src/Receipts/Delivery/Settling.antt =====
-- Whatever happens to the deliveries of receipts/queue_ingest.py, the messages settle.
use home_budget_pipeline.Prelude.{ℕ, zero, suc, ◌<◌, [], ◌≡◌, inl, inr, arith}
use home_budget_pipeline.Prelude.Listed.{Listed}
use home_budget_pipeline.Receipts.Message.{ReceiptMessage}
use home_budget_pipeline.Receipts.Message.Encoding.{Body}
use home_budget_pipeline.Receipts.Delivery.{Topology, Outcome}
use home_budget_pipeline.Receipts.Delivery.Broker.{Broker, ◌⟶◌}
use home_budget_pipeline.Receipts.Delivery.Weight.{weight}
use home_budget_pipeline.Receipts.Delivery.Termination.{not_below_zero, step_lighter, progress}
use home_budget_pipeline.Receipts.Delivery.Handled.{same}
use home_budget_pipeline.Receipts.Delivery.Places.{bodies, in_work, Accounted, follows-trans}
use home_budget_pipeline.Receipts.Delivery.Conservation.{step-Accounted, Settled-Place, Settled}

module _ {Event : Type 0} (topology : Topology) (process : ℕ → ReceiptMessage → Outcome Event) where
  -- Every run reaches a state with the property: the state has it, or there is a next step, and
  -- after whichever step comes next every run reaches one.
  pub data Inevitably (P : Broker Event → Type 0) : Broker Event → Type 0 where
    reached : (s : Broker Event) → P s → Inevitably P s
    later :
        (s t : Broker Event)
        → ◌⟶◌ topology process s t
        → ((u : Broker Event) → ◌⟶◌ topology process s u → Inevitably P u)
        → Inevitably P s

  -- No message waits, and each message of the work queue of `s` is settled.
  abbrev pub AllSettled : Broker Event → Broker Event → Type 0
  AllSettled s t =
      (t.work ≡ [])
      × (t.retry ≡ [])
      × ((b : Body) → Listed b (bodies s.work) → Settled topology process b t)

  settles :
      (s : Broker Event) (fuel : ℕ) (t : Broker Event)
      → weight t < fuel
      → ((b : Body) → Listed b (bodies s.work) → Accounted process b t)
      → Inevitably (AllSettled s) t
  settles s zero t h known = absurd (not_below_zero h)
  settles s (suc fuel) t h known = elim (progress topology process t) [
    | inl (no_work, no_retry) ↦ reached t (
      no_work,
      no_retry,
      λ b waits.
          let (c, f, place) = known b waits in
          Settled-Place topology process b c t f no_work no_retry place,
    )
    | inr (next, first) ↦ later t next first (λ u taken.
        settles s fuel u (omega (arith, step_lighter topology process taken, h)) (λ b waits.
          let (c, f, place) = known b waits in
          let (d, g, there) = step-Accounted topology process taken c place in
          (d, follows-trans f g, there)))
  ]

  -- From every state, every run, whatever fails and whichever step is taken next, reaches after
  -- finitely many steps a state in which both queues are empty and every message that waited in the
  -- work queue has all its results published, or it, or a later attempt at it, is in the dead queue.
  pub messages_settle : (s : Broker Event) → Inevitably (AllSettled s) s
  messages_settle s =
      settles s (suc (weight s)) s (omega arith) (λ b waits. (b, same, in_work waits))
