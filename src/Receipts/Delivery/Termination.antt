-- ===== src/Receipts/Delivery/Termination.antt =====
-- The deliveries of receipts/queue_ingest.py come to an end.
use home_budget_pipeline.Prelude.{
  ℕ, suc, ◌+◌, ◌*◌, ◌-◌, ◌≤◌, ◌<◌, Bool, true, false, List, [], ◌∷◌, ◌++◌, ltb, ◌≡◌, refl, sym, ap,
  ◌∙◌, ◌⊎◌, inl, inr, Bool-cases, arith, subst,
}
use home_budget_pipeline.Receipts.Message.{ReceiptMessage}
use home_budget_pipeline.Receipts.Message.Encoding.{Body}
use home_budget_pipeline.Receipts.Delivery.{
  work, retry, dead, Topology, declare_topology, Action, published, result_published, acknowledged,
  Fate, Outcome,
}
use home_budget_pipeline.Receipts.Delivery.Broker.{
  Broker, Waiting, handled, ◌⟶◌, deliver, expire, Steps, halt, step, delivered, expired, leave,
  store, store_all, is_acknowledged,
}
use home_budget_pipeline.Receipts.Delivery.Weight.{
  cost, retries, waiting_weight, work_weight, delay_weight, weight, gain, gains, gains-handled,
}

pub not_below_zero : {n : ℕ} → n < 0 → ⊥
not_below_zero h = omega arith

work_weight-append :
    (xs ys : List Waiting) → work_weight (xs ++ ys) ≡ work_weight xs + work_weight ys
work_weight-append [] ys = omega arith
work_weight-append (x ∷ xs) ys = omega (arith, work_weight-append xs ys)

delay_weight-append :
    (xs ys : List Body) → delay_weight (xs ++ ys) ≡ delay_weight xs + delay_weight ys
delay_weight-append [] ys = omega arith
delay_weight-append (x ∷ xs) ys = omega (arith, delay_weight-append xs ys)

-- Every return of a message costs as much as a delivery.
again_cheaper :
    (d : ℕ) (c : ℕ) → ltb 20 (d + 1) ≡ false → suc (20 - (d + 1)) * c + c ≤ suc (20 - d) * c
again_cheaper d c h =
    let below : 20 - d ≡ suc (20 - (d + 1)) = ground arith in
    subst (λ a. suc (20 - (d + 1)) * c + c ≤ suc a * c) (sym below) (grind arith)

cost_within : (a c : ℕ) → c ≤ suc a * c
cost_within a c = grind arith

split_weight :
    (all xs : List Waiting) (w : Waiting) (ys : List Waiting)
    → all ≡ xs ++ w ∷ ys
    → work_weight all ≡ waiting_weight w + work_weight (xs ++ ys)
split_weight all xs w ys h =
    ap work_weight h ∙ omega (arith, work_weight-append xs (w ∷ ys), work_weight-append xs ys)

back_weight :
    (xs : List Waiting) (w : Waiting) (ys : List Waiting)
    → work_weight (xs ++ w ∷ ys) ≡ waiting_weight w + work_weight (xs ++ ys)
back_weight xs w ys = split_weight (xs ++ w ∷ ys) xs w ys refl

module _ {Event : Type 0} where
  weight-store : (a : Action Event) (s : Broker Event) → weight (store a s) ≡ weight s + gain a
  weight-store (published work b) s =
      ground (arith, work_weight-append s.work (record { body = b; deliveries = 0 } ∷ []))
  weight-store (published retry b) s = ground (arith, delay_weight-append s.retry (b ∷ []))
  weight-store (published dead b) s = omega arith
  weight-store (result_published e) s = omega arith
  weight-store acknowledged s = omega arith

  weight-store_all :
      (actions : List (Action Event)) (s : Broker Event)
      → weight (store_all actions s) ≡ weight s + gains actions
  unfolding store_all
  weight-store_all [] s = omega arith
  weight-store_all (a ∷ actions) s =
      omega (arith, weight-store_all actions (store a s), weight-store a s)

  -- A message that leaves the work queue, or comes back, makes room for its cost.
  weight-leave :
      (topology : Topology) (acked : Bool) (xs : List Waiting) (w : Waiting) (ys : List Waiting)
      (s : Broker Event)
      → s.work ≡ xs ++ w ∷ ys
      → weight (leave topology acked xs w ys s) + cost (retries w.body) ≤ weight s
  unfolding leave declare_topology
  weight-leave topology true xs w ys s h = omega (
    arith,
    split_weight s.work xs w ys h,
    cost_within (20 - w.deliveries) (cost (retries w.body)),
  )
  weight-leave topology false xs w ys s h = elim (Bool-cases (ltb 20 (w.deliveries + 1))) [
    | inl e ↦ rw e (
        omega (
          arith,
          split_weight s.work xs w ys h,
          cost_within (20 - w.deliveries) (cost (retries w.body)),
        ))
    | inr e ↦ rw e (
        omega (
          arith,
          split_weight s.work xs w ys h,
          back_weight xs (record w { deliveries = w.deliveries + 1 }) ys,
          again_cheaper w.deliveries (cost (retries w.body)) e,
        ))
  ]

  weight-delivered :
      (topology : Topology) (process : ReceiptMessage → Outcome Event) (fates : List Fate)
      (xs : List Waiting) (w : Waiting) (ys : List Waiting) (s : Broker Event)
      → s.work ≡ xs ++ w ∷ ys
      → weight (delivered topology process fates xs w ys s) < weight s
  unfolding delivered
  weight-delivered topology process fates xs w ys s h =
      let actions = handled process fates w.body in
      omega (
        arith,
        weight-store_all actions (leave topology (is_acknowledged actions) xs w ys s),
        weight-leave topology (is_acknowledged actions) xs w ys s h,
        gains-handled process fates w.body,
      )

  weight-expired :
      (topology : Topology) (xs : List Body) (b : Body) (ys : List Body) (s : Broker Event)
      → s.retry ≡ xs ++ b ∷ ys
      → weight (expired topology xs b ys s) < weight s
  unfolding expired declare_topology
  weight-expired topology xs b ys s h = omega (
    arith,
    ap delay_weight h,
    delay_weight-append xs (b ∷ ys),
    delay_weight-append xs ys,
    work_weight-append s.work (record { body = b; deliveries = 0 } ∷ []),
  )

  module _ (topology : Topology) (process : ℕ → ReceiptMessage → Outcome Event) where
    pub step_lighter : {s t : Broker Event} → ◌⟶◌ topology process s t → weight t < weight s
    step_lighter (deliver moment fates xs w ys s h) =
        weight-delivered topology (process moment) fates xs w ys s h
    step_lighter (expire xs b ys s h) = weight-expired topology xs b ys s h

    -- However often deliveries fail, connections are lost and messages come back, there are at most
    -- `weight s` deliveries and ends of a delay from the state s on: no run goes on for ever.
    pub deliveries_end :
        {n : ℕ} {s t : Broker Event} → Steps topology process n s t → n + weight t ≤ weight s
    deliveries_end (halt s) = omega arith
    deliveries_end (step first steps) = omega (arith, deliveries_end steps, step_lighter first)

    pub progress :
        (s : Broker Event)
        → ((s.work ≡ []) × (s.retry ≡ [])) ⊎ ((t : Broker Event) × ◌⟶◌ topology process s t)
    progress s = from_queues s.work refl s.retry refl
      where
        from_queues :
            (ws : List Waiting)
            → s.work ≡ ws
            → (bs : List Body) → s.retry ≡ bs
            → ((s.work ≡ []) × (s.retry ≡ [])) ⊎ ((t : Broker Event) × ◌⟶◌ topology process s t)
        from_queues [] h [] k = inl (h, k)
        from_queues [] h (b ∷ bs) k = inr (_, expire [] b bs s k)
        from_queues (w ∷ ws) h bs k = inr (_, deliver 0 [] [] w ws s h)
