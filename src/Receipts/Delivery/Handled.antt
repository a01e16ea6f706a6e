-- ===== src/Receipts/Delivery/Handled.antt =====
-- What an acknowledged delivery has left with the broker.
use home_budget_pipeline.Prelude.{
  Bool, true, false, ◌||◌, List, [], ◌∷◌, ◌++◌, if◌then◌else◌, ◌≡◌, refl, ◌∙◌, ◌⊎◌, All,
}
use home_budget_pipeline.Prelude.Listed.{Listed, Listed-left, Listed-last}
use home_budget_pipeline.Prelude.Result.{returns}
use home_budget_pipeline.Receipts.Message.{ReceiptMessage}
use home_budget_pipeline.Receipts.Message.Encoding.{Body, to_bytes, from_bytes}
use home_budget_pipeline.Receipts.Delivery.{
  retry, dead, Action, published, result_published, acknowledged, Channel, Fate, arrives,
  is_confirmed, confirmed, refused, unconfirmed, next_fate, call, next_attempt, Outcome, finished,
}
use home_budget_pipeline.Receipts.Delivery.Broker.{is_acknowledgement, is_acknowledged}

-- `c` is the body b, or of a later attempt at it.
pub data Follows (b : Body) : Body → Type 0 where
  same : Follows b b
  later :
      {c : Body} {m : ReceiptMessage}
      → Follows b c
      → from_bytes c ≡ returns m
      → Follows b (to_bytes (next_attempt m))

module _ {Event : Type 0} where
  -- `b` was passed on by the actions, to be tried again or to be looked at.
  abbrev pub PassedOn : Body → List (Action Event) → Type 0
  PassedOn b actions =
      (c : Body) × Follows b c
      × (Listed (published retry c) actions ⊎ Listed (published dead c) actions)

  abbrev pub AllPublished : List Event → List (Action Event) → Type 0
  AllPublished events actions = All (λ e. Listed (result_published e) actions) events

  -- Every result that the processing gave was published.
  abbrev pub Answered : (ReceiptMessage → Outcome Event) → Body → List (Action Event) → Type 0
  Answered process b actions =
      (m : ReceiptMessage) × (events : List Event) × (from_bytes b ≡ returns m)
      × (process m ≡ finished events)
      × AllPublished events actions

  acknowledged-last :
      (actions : List (Action Event)) (a : Action Event)
      → is_acknowledged (actions ++ a ∷ []) ≡ (is_acknowledged actions || is_acknowledgement a)
  unfolding is_acknowledged
  acknowledged-last [] (published q b) = refl
  acknowledged-last [] (result_published e) = refl
  acknowledged-last [] acknowledged = refl
  acknowledged-last (published q b ∷ actions) a = acknowledged-last actions a
  acknowledged-last (result_published e ∷ actions) a = acknowledged-last actions a
  acknowledged-last (acknowledged ∷ actions) a = refl

  abbrev pub IsSilent : Channel Event → Type 0
  IsSilent channel = is_acknowledged channel.actions ≡ false

  IsSilent-if :
      (b : Bool) (actions : List (Action Event)) (a : Action Event)
      → is_acknowledged actions ≡ false
      → is_acknowledgement a ≡ false
      → is_acknowledged (if b then actions ++ a ∷ [] else actions) ≡ false
  IsSilent-if true actions a h k = acknowledged-last actions a ∙ (rw h k)
  IsSilent-if false actions a h k = h

  pub IsSilent-call :
      (a : Action Event) (channel : Channel Event)
      → is_acknowledgement a ≡ false
      → IsSilent channel
      → IsSilent (call a channel).1
  unfolding call
  IsSilent-call a channel k h =
      IsSilent-if (arrives (next_fate channel.fates).0) channel.actions a h k

  Listed-if :
      (x : Action Event) (b : Bool) (actions : List (Action Event)) (a : Action Event)
      → Listed x actions
      → Listed x (if b then actions ++ a ∷ [] else actions)
  Listed-if x true actions a h = Listed-left x actions (a ∷ []) h
  Listed-if x false actions a h = h

  -- What the broker has, it keeps.
  pub Listed-call :
      (x a : Action Event) (channel : Channel Event)
      → Listed x channel.actions
      → Listed x (call a channel).1.actions
  unfolding call
  Listed-call x a channel h = Listed-if x (arrives (next_fate channel.fates).0) channel.actions a h

  confirmed-if :
      (fate : Fate) (actions : List (Action Event)) (a : Action Event)
      → is_confirmed fate ≡ true
      → Listed a (if arrives fate then actions ++ a ∷ [] else actions)
  confirmed-if confirmed actions a h = Listed-last a actions
  confirmed-if refused actions a h = cc
  confirmed-if unconfirmed actions a h = cc

  -- A call that returned has reached the broker.
  pub call_arrives :
      (a : Action Event) (channel : Channel Event)
      → (call a channel).0 ≡ true
      → Listed a (call a channel).1.actions
  unfolding call
  call_arrives a channel h = confirmed-if (next_fate channel.fates).0 channel.actions a h
