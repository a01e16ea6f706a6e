-- ===== src/Receipts/Delivery/Conservation.antt =====
-- No receipt message of receipts/queue_ingest.py is lost between its queues.
use home_budget_pipeline.Prelude.{
  ℕ, ◌+◌, Bool, true, false, List, [], ◌∷◌, ◌++◌, ltb, if◌then◌else◌, ◌≡◌, refl, sym, ap, ◌∙◌, ◌⊎◌,
  inl, inr, Bool-cases, subst,
}
use home_budget_pipeline.Prelude.Listed.{
  Listed, Listed-left, Listed-right, Listed-last, Listed-split, Listed-insert,
}
use home_budget_pipeline.Receipts.Message.{ReceiptMessage}
use home_budget_pipeline.Receipts.Message.Encoding.{Body}
use home_budget_pipeline.Receipts.Delivery.{Topology, declare_topology, Action, Fate, Outcome}
use home_budget_pipeline.Receipts.Delivery.Broker.{
  Broker, Waiting, handled, ◌⟶◌, deliver, expire, Steps, halt, step, delivered, expired, leave,
  store_all, is_acknowledged,
}
use home_budget_pipeline.Receipts.Delivery.Handled.{Follows, same}
use home_budget_pipeline.Receipts.Delivery.Acknowledged.{Handled, acknowledged-Handled}
use home_budget_pipeline.Receipts.Delivery.Places.{
  bodies, bodies-append, Answers, Place, in_work, in_retry, in_dead, answered, Accounted,
  Place-store_all, retry-store_all, dead-store_all, answers-store_all, follows-trans,
}

module _ {Event : Type 0} (topology : Topology) (process : ℕ → ReceiptMessage → Outcome Event) where
  elsewhere-Place :
      (acked : Bool) (xs : List Waiting) (w : Waiting) (ys : List Waiting) (s : Broker Event)
      (b : Body)
      → Listed b (bodies xs ++ bodies ys)
      → Place process b (leave topology acked xs w ys s)
  unfolding leave declare_topology
  elsewhere-Place true xs w ys s b h = in_work (subst (Listed b) (sym (bodies-append xs ys)) h)
  elsewhere-Place false xs w ys s b h = elim (Bool-cases (ltb 20 (w.deliveries + 1))) [
    | inl e ↦ rw e (in_work (subst (Listed b) (sym (bodies-append xs ys)) h))
    | inr e ↦ rw e (
        in_work (
          subst (Listed b)
            (sym (bodies-append xs (record w { deliveries = w.deliveries + 1 } ∷ ys)))
            (Listed-insert b w.body (bodies xs) (bodies ys) h)))
  ]

  -- A delivery that is not acknowledged comes back, or is left to be looked at.
  returned-Place :
      (xs : List Waiting) (w : Waiting) (ys : List Waiting) (s : Broker Event)
      → Place process w.body (leave topology false xs w ys s)
  unfolding leave declare_topology
  returned-Place xs w ys s = elim (Bool-cases (ltb 20 (w.deliveries + 1))) [
    | inl e ↦ rw e (in_dead (Listed-last w.body s.dead))
    | inr e ↦ rw e (
        in_work (
          subst (Listed w.body)
            (sym (bodies-append xs (record w { deliveries = w.deliveries + 1 } ∷ ys)))
            (Listed-right w.body (bodies xs) (w.body ∷ bodies ys) (inl refl))))
  ]

  Place-if :
      (test : Bool) (s t : Broker Event) {b : Body}
      → Place process b s
      → Place process b t
      → Place process b (if test then s else t)
  Place-if true s t h k = h
  Place-if false s t h k = k

  -- What does not touch the work queue stays.
  Place-leave :
      (acked : Bool) (xs : List Waiting) (w : Waiting) (ys : List Waiting) (s : Broker Event)
      (b : Body)
      → s.work ≡ xs ++ w ∷ ys
      → Place process b s
      → (w.body ≡ b) ⊎ Place process b (leave topology acked xs w ys s)
  unfolding leave declare_topology
  Place-leave acked xs w ys s b h (in_work k) =
      elim (Listed-split b w.body (bodies xs) (bodies ys)
        (subst (Listed b) (ap bodies h ∙ bodies-append xs (w ∷ ys)) k)) [
          | inl e ↦ inl e
          | inr l ↦ inr (elsewhere-Place acked xs w ys s b l)
        ]
  Place-leave true xs w ys s b h (in_retry k) = inr (in_retry k)
  Place-leave true xs w ys s b h (in_dead k) = inr (in_dead k)
  Place-leave true xs w ys s b h (answered k) = inr (answered k)
  Place-leave false xs w ys s b h (in_retry k) =
      inr (Place-if (ltb 20 (w.deliveries + 1)) _ _ (in_retry k) (in_retry k))
  Place-leave false xs w ys s b h (in_dead k) = inr (
      Place-if (ltb 20 (w.deliveries + 1)) _ _ (in_dead (Listed-left b s.dead (w.body ∷ []) k))
        (in_dead k))
  Place-leave false xs w ys s b h (answered k) =
      inr (Place-if (ltb 20 (w.deliveries + 1)) _ _ (answered k) (answered k))

  -- A body that a delivery took from the queue is accounted for after it.
  Accounted-Handled :
      (moment : ℕ) (body : Body) (actions : List (Action Event)) (s : Broker Event)
      → Handled (process moment) body actions
      → Accounted process body (store_all actions s)
  Accounted-Handled moment body actions s (inl (m, events, reads, done, all)) = (
    body,
    same,
    answered (m, moment, events, reads, done, answers-store_all process actions s events all),
  )
  Accounted-Handled moment body actions s (inr (c, f, inl h)) =
      (c, f, retry-store_all process actions s c h)
  Accounted-Handled moment body actions s (inr (c, f, inr h)) =
      (c, f, dead-store_all process actions s c h)

  taken-Accounted :
      (moment : ℕ) (fates : List Fate) (xs : List Waiting) (w : Waiting) (ys : List Waiting)
      (s : Broker Event)
      → Accounted process w.body (delivered topology (process moment) fates xs w ys s)
  unfolding delivered
  taken-Accounted moment fates xs w ys s =
      let actions = handled (process moment) fates w.body in
      elim (Bool-cases (is_acknowledged actions)) [
        | inl e ↦
            Accounted-Handled moment w.body actions _
              (acknowledged-Handled (process moment) fates w.body e)
        | inr e ↦ (
          w.body,
          same,
          Place-store_all process actions _ w.body (
              subst (λ acked. Place process w.body (leave topology acked xs w ys s)) (sym e)
                (returned-Place xs w ys s)),
        )
      ]

  Accounted-delivered :
      (moment : ℕ) (fates : List Fate) (xs : List Waiting) (w : Waiting) (ys : List Waiting)
      (s : Broker Event) (b : Body)
      → s.work ≡ xs ++ w ∷ ys
      → Place process b s
      → Accounted process b (delivered topology (process moment) fates xs w ys s)
  unfolding delivered
  Accounted-delivered moment fates xs w ys s b h p =
      let actions = handled (process moment) fates w.body in
      elim (Place-leave (is_acknowledged actions) xs w ys s b h p) [
        | inl e ↦
            subst (λ b. Accounted process b (delivered topology (process moment) fates xs w ys s)) e
              (taken-Accounted moment fates xs w ys s)
        | inr k ↦ (b, same, Place-store_all process actions _ b k)
      ]

  Place-expired :
      (xs : List Body) (c : Body) (ys : List Body) (s : Broker Event) (b : Body)
      → s.retry ≡ xs ++ c ∷ ys
      → Place process b s
      → Place process b (expired topology xs c ys s)
  unfolding expired declare_topology
  Place-expired xs c ys s b h (in_work k) =
      in_work (subst (Listed b) (sym (bodies-append s.work _)) (Listed-left b (bodies s.work) _ k))
  Place-expired xs c ys s b h (in_retry k) = elim (Listed-split b c xs ys (subst (Listed b) h k)) [
    | inl e ↦ in_work (
        subst (Listed b) (sym (bodies-append s.work _))
          (Listed-right b (bodies s.work) (c ∷ []) (inl e)))
    | inr l ↦ in_retry l
  ]
  Place-expired xs c ys s b h (in_dead k) = in_dead k
  Place-expired xs c ys s b h (answered k) = answered k

  pub step-Accounted :
      {s t : Broker Event}
      → ◌⟶◌ topology process s t
      → (b : Body) → Place process b s
      → Accounted process b t
  step-Accounted (deliver moment fates xs w ys s h) b p =
      Accounted-delivered moment fates xs w ys s b h p
  step-Accounted (expire xs c ys s h) b p = (b, same, Place-expired xs c ys s b h p)

  -- The invariant: every message that the broker had is accounted for, after any number of steps.
  pub Steps-Accounted :
      {n : ℕ} {s t : Broker Event}
      → Steps topology process n s t
      → (b : Body) → Place process b s
      → Accounted process b t
  Steps-Accounted (halt s) b p = (b, same, p)
  Steps-Accounted (step first steps) b p =
      let (c, f, q) = step-Accounted first b p in
      let (d, g, r) = Steps-Accounted steps c q in (d, follows-trans f g, r)

  -- What the end of the work leaves of a message.
  abbrev pub Settled : Body → Broker Event → Type 0
  Settled b s = (c : Body) × Follows b c × (Listed c s.dead ⊎ Answers process c s)

  pub Settled-Place :
      (b c : Body) (s : Broker Event)
      → Follows b c
      → s.work ≡ []
      → s.retry ≡ []
      → Place process c s
      → Settled b s
  Settled-Place b c s f no_work no_retry (in_work h) =
      absurd (subst (Listed c) (ap bodies no_work) h)
  Settled-Place b c s f no_work no_retry (in_retry h) = absurd (subst (Listed c) no_retry h)
  Settled-Place b c s f no_work no_retry (in_dead h) = (c, f, inl h)
  Settled-Place b c s f no_work no_retry (answered k) = (c, f, inr k)

  -- Once the work queue and the retry queue are empty, every message that waited in the work queue
  -- before has all its results published, or it, or a later attempt at it, is in the dead queue.
  pub no_message_lost :
      {n : ℕ} {s t : Broker Event}
      → Steps topology process n s t
      → t.work ≡ []
      → t.retry ≡ []
      → (b : Body) → Listed b (bodies s.work)
      → Settled b t
  no_message_lost {t = t} steps no_work no_retry b waits =
      let (c, f, p) = Steps-Accounted steps b (in_work waits) in
      Settled-Place b c t f no_work no_retry p
