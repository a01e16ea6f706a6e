-- ===== src/Receipts/Intake/Reserved.antt =====
-- How long a reservation holds a message back.
use home_budget_pipeline.Prelude.{
  ℕ, ◌≤◌, ◌<◌, Bool, true, false, ◌&&◌, none, List, [], ◌∷◌, any, ◌≡◌, refl, All, arith, inl, inr,
  Bool-cases,
}
use home_budget_pipeline.Prelude.Text.{Text, text_refl}
use home_budget_pipeline.Receipts.Intake.{
  intake_released, IntakeEvent, IntakeMessage, is_text, is_publication, watched_queues, releases,
  holds, is_held, reservation, reserve, release,
}

-- No event of the receipt is later than the time.
abbrev pub IsBefore : ℕ → ℕ → List IntakeEvent → Type 0
IsBefore sha now events = All (λ e. e.source_sha256 ≡ sha → e.occurred_at ≤ now) events

unreleased :
    (e : IntakeEvent) (sha now : ℕ) (events : List IntakeEvent)
    → e.source_sha256 ≡ sha
    → e.occurred_at ≡ now
    → IsBefore sha now events
    → any (releases e) events ≡ false
unfolding any
unreleased e sha now [] same at h = refl
unreleased e sha now (r ∷ events) same at h =
    ground (arith, unreleased e sha now events same at h.1, h.0)

reservation-is_publication :
    (m : IntakeMessage) (queue : Text) (now : ℕ)
    → is_publication m.message_id queue (reservation m queue now) ≡ true
unfolding is_publication watched_queues any
reservation-is_publication m queue now = rw (text_refl m.message_id) (rw (text_refl queue) refl)

and_false : (b : Bool) → (b && false) ≡ false
and_false true = refl
and_false false = refl

false-true {ℓ} : {A : Type ℓ} → false ≡ true → A
false-true h = cc

-- A message that is reserved is held, until an event of its receipt comes later.
reserved_is_held :
    (m : IntakeMessage) (queue : Text) (now : ℕ) (events : List IntakeEvent)
    → IsBefore m.source_sha256 now events
    → is_held (reserve m queue now events) queue m.message_id ≡ true
unfolding is_held holds any
reserved_is_held m queue now events h = rw (reservation-is_publication m queue now) (
    rw
      (unreleased (reservation m queue now) m.source_sha256 now (reserve m queue now events) refl
        refl ((λ same. omega arith), h))
      refl)

abbrev released : ℕ → Text → ℕ → IntakeEvent
released sha reference now = record {
  source_sha256 = sha;
  source_reference = reference;
  status = intake_released;
  message_id = none;
  queue = none;
  occurred_at = now;
}

-- Every event of the message is one of the receipt, and before the time.
abbrev pub IsEarlier : Text → ℕ → ℕ → List IntakeEvent → Type 0
IsEarlier id sha now events =
    All (λ e. is_text id e.message_id ≡ true → (e.source_sha256 ≡ sha) × (e.occurred_at < now))
      events

releases-released :
    (e : IntakeEvent) (sha now : ℕ) (reference : Text)
    → (e.source_sha256 ≡ sha) × (e.occurred_at < now)
    → releases e (released sha reference now) ≡ true
releases-released e sha now reference (same, early) = ground arith

holds-released :
    (id queue reference : Text) (sha now : ℕ) (events : List IntakeEvent) (e : IntakeEvent)
    → (is_text id e.message_id ≡ true → (e.source_sha256 ≡ sha) × (e.occurred_at < now))
    → holds (release sha reference now events) id queue e ≡ false
unfolding holds any is_publication
holds-released id queue reference sha now events e h = elim (Bool-cases (is_text id e.message_id)) [
  | inl t ↦ rw t (rw (releases-released e sha now reference (h t)) (and_false _))
  | inr t ↦ rw t refl
]

any-holds :
    (id queue reference : Text) (sha now : ℕ) (all events : List IntakeEvent)
    → IsEarlier id sha now events
    → any (holds (release sha reference now all) id queue) events ≡ false
unfolding any
any-holds id queue reference sha now all [] h = refl
any-holds id queue reference sha now all (e ∷ events) h =
    rw (holds-released id queue reference sha now all e h.0)
      (any-holds id queue reference sha now all events h.1)

-- A release of the receipt lets its messages go that were published before.
pub released_is_free :
    (id queue reference : Text) (sha now : ℕ) (events : List IntakeEvent)
    → IsEarlier id sha now events
    → is_held (release sha reference now events) queue id ≡ false
unfolding is_held any
released_is_free id queue reference sha now events h =
    rw
      (holds-released id queue reference sha now events (released sha reference now)
        (λ e. false-true e))
      (any-holds id queue reference sha now events events h)
