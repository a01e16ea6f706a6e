-- ===== src/Receipts/Delivery/Places.antt =====
-- Where a message is, and that the broker keeps it when actions are stored.
use home_budget_pipeline.Prelude.{
  ℕ, List, [], ◌∷◌, ◌++◌, ◌≡◌, refl, sym, ap, ◌⊎◌, inl, inr, subst, All,
}
use home_budget_pipeline.Prelude.Listed.{Listed, Listed-left, Listed-last}
use home_budget_pipeline.Prelude.Result.{returns}
use home_budget_pipeline.Receipts.Message.{ReceiptMessage}
use home_budget_pipeline.Receipts.Message.Encoding.{Body, from_bytes}
use home_budget_pipeline.Receipts.Delivery.{
  work, retry, dead, Action, published, result_published, acknowledged, Outcome, finished,
}
use home_budget_pipeline.Receipts.Delivery.Broker.{Broker, Waiting, store, store_all}
use home_budget_pipeline.Receipts.Delivery.Handled.{Follows, same, later, AllPublished}

abbrev pub bodies : List Waiting → List Body
bodies [] = []
bodies (w ∷ ws) = w.body ∷ bodies ws

pub bodies-append : (xs ys : List Waiting) → bodies (xs ++ ys) ≡ (bodies xs ++ bodies ys)
bodies-append [] ys = refl
bodies-append (x ∷ xs) ys = ap (λ bs. x.body ∷ bs) (bodies-append xs ys)

pub follows-trans : {b c d : Body} → Follows b c → Follows c d → Follows b d
follows-trans f same = f
follows-trans f (later g reads) = later (follows-trans f g) reads

module _ {Event : Type 0} (process : ℕ → ReceiptMessage → Outcome Event) where
  -- The results of the message that the body carries have all been published.
  abbrev pub Answers : Body → Broker Event → Type 0
  Answers b s =
      (m : ReceiptMessage) × (moment : ℕ) × (events : List Event) × (from_bytes b ≡ returns m)
      × (process moment m ≡ finished events)
      × All (λ e. Listed e s.results) events

  -- Where a body is: in a queue, or answered.
  pub data Place (b : Body) (s : Broker Event) : Type 0 where
    in_work : Listed b (bodies s.work) → Place b s
    in_retry : Listed b s.retry → Place b s
    in_dead : Listed b s.dead → Place b s
    answered : Answers b s → Place b s

  -- The message of the body, or a later attempt at it, is still there or is answered.
  abbrev pub Accounted : Body → Broker Event → Type 0
  Accounted b s = (c : Body) × Follows b c × Place c s

  -- What the broker has, it keeps when an action is stored.
  results-store :
      (a : Action Event) (s : Broker Event) (events : List Event)
      → All (λ e. Listed e s.results) events
      → All (λ e. Listed e (store a s).results) events
  results-store a s [] h = tt
  results-store (published work b) s events h = h
  results-store (published retry b) s events h = h
  results-store (published dead b) s events h = h
  results-store (result_published x) s (e ∷ events) h =
      (Listed-left e s.results (x ∷ []) h.0, results-store (result_published x) s events h.1)
  results-store acknowledged s events h = h

  Place-store : (a : Action Event) (s : Broker Event) (b : Body) → Place b s → Place b (store a s)
  Place-store (published work c) s b (in_work h) =
      in_work (subst (Listed b) (sym (bodies-append s.work _)) (Listed-left b (bodies s.work) _ h))
  Place-store (published retry c) s b (in_retry h) = in_retry (Listed-left b s.retry (c ∷ []) h)
  Place-store (published dead c) s b (in_dead h) = in_dead (Listed-left b s.dead (c ∷ []) h)
  Place-store a s b (answered (m, moment, events, reads, done, all)) =
      answered (m, moment, events, reads, done, results-store a s events all)
  Place-store (published work c) s b (in_retry h) = in_retry h
  Place-store (published work c) s b (in_dead h) = in_dead h
  Place-store (published retry c) s b (in_work h) = in_work h
  Place-store (published retry c) s b (in_dead h) = in_dead h
  Place-store (published dead c) s b (in_work h) = in_work h
  Place-store (published dead c) s b (in_retry h) = in_retry h
  Place-store (result_published e) s b (in_work h) = in_work h
  Place-store (result_published e) s b (in_retry h) = in_retry h
  Place-store (result_published e) s b (in_dead h) = in_dead h
  Place-store acknowledged s b h = h

  pub Place-store_all :
      (actions : List (Action Event)) (s : Broker Event) (b : Body)
      → Place b s
      → Place b (store_all actions s)
  unfolding store_all
  Place-store_all [] s b h = h
  Place-store_all (a ∷ actions) s b h = Place-store_all actions (store a s) b (Place-store a s b h)

  pub retry-store_all :
      (actions : List (Action Event)) (s : Broker Event) (b : Body)
      → Listed (published retry b) actions
      → Place b (store_all actions s)
  unfolding store_all
  retry-store_all [] s b h = absurd h
  retry-store_all (a ∷ actions) s b (inl e) =
      Place-store_all actions (store a s) b
        (subst (λ a. Place b (store a s)) (sym e) (in_retry (Listed-last b s.retry)))
  retry-store_all (a ∷ actions) s b (inr h) = retry-store_all actions (store a s) b h

  pub dead-store_all :
      (actions : List (Action Event)) (s : Broker Event) (b : Body)
      → Listed (published dead b) actions
      → Place b (store_all actions s)
  unfolding store_all
  dead-store_all [] s b h = absurd h
  dead-store_all (a ∷ actions) s b (inl e) =
      Place-store_all actions (store a s) b
        (subst (λ a. Place b (store a s)) (sym e) (in_dead (Listed-last b s.dead)))
  dead-store_all (a ∷ actions) s b (inr h) = dead-store_all actions (store a s) b h

  result-store_all :
      (actions : List (Action Event)) (s : Broker Event) (e : Event)
      → Listed e s.results ⊎ Listed (result_published e) actions
      → Listed e (store_all actions s).results
  unfolding store_all
  result-store_all [] s e (inl h) = h
  result-store_all [] s e (inr h) = absurd h
  result-store_all (a ∷ actions) s e (inl h) =
      result-store_all actions (store a s) e (inl (results-store a s (e ∷ []) (h, tt)).0)
  result-store_all (a ∷ actions) s e (inr (inl p)) =
      result-store_all actions (store a s) e
        (inl (subst (λ a. Listed e (store a s).results) (sym p) (Listed-last e s.results)))
  result-store_all (a ∷ actions) s e (inr (inr h)) = result-store_all actions (store a s) e (inr h)

  pub answers-store_all :
      (actions : List (Action Event)) (s : Broker Event) (events : List Event)
      → AllPublished events actions
      → All (λ e. Listed e (store_all actions s).results) events
  answers-store_all actions s [] h = tt
  answers-store_all actions s (e ∷ events) h =
      (result-store_all actions s e (inr h.0), answers-store_all actions s events h.1)
