-- ===== src/Receipts/Intake.antt =====
-- receipts/publication_guard.py: the reservations of normal intake. Digests are numbers, as in the
-- backlog, and times are counted from a fixed moment.
pub mod Reserved
use home_budget_pipeline.Prelude.{
  ℕ, ◌-◌, Bool, true, false, not, ◌&&◌, Option, none, some, List, [], ◌∷◌, ◌++◌, ltb, ◌==◌, any,
  select, length, if◌then◌else◌,
}
use home_budget_pipeline.Prelude.Text.{Text, codes, ◌==ₜ◌}

pub data IntakeStatus : Type 0 where
  intake_reserved queued intake_released other_status : IntakeStatus

-- A row of `lineage.receipt_events`.
pub record IntakeEvent : Type 0 where
  pub source_sha256 : ℕ
  pub source_reference : Text
  pub status : IntakeStatus
  pub message_id : Option Text
  pub queue : Option Text
  pub occurred_at : ℕ

pub record IntakeMessage : Type 0 where
  pub message_id : Text
  pub source_sha256 : ℕ
  pub source_reference : Text

-- `s.removesuffix(suffix)`
unfoldable pub remove_suffix : Text → Text → Text
remove_suffix suffix [] = []
remove_suffix suffix (c ∷ s) =
    let rest = remove_suffix suffix s in if (c ∷ s) ==ₜ suffix then [] else c ∷ rest

unfoldable pub watched_queues : Text → List Text
unfolding remove_suffix
watched_queues queue =
    queue
    ∷ (remove_suffix (codes ".work") queue ++ codes ".retry")
    ∷ (remove_suffix (codes ".work") queue ++ codes ".dead")
    ∷ []

abbrev pub is_text : Text → Option Text → Bool
is_text t none = false
is_text t (some s) = s ==ₜ t

abbrev pub is_among : List Text → Option Text → Bool
is_among names none = false
is_among names (some s) = any (λ n. s ==ₜ n) names

abbrev pub is_held_status : IntakeStatus → Bool
is_held_status intake_reserved = true
is_held_status queued = true
is_held_status _ = false

abbrev pub is_release : IntakeStatus → Bool
is_release intake_released = true
is_release _ = false

abbrev pub is_publication : Text → Text → IntakeEvent → Bool
unfolding watched_queues any
is_publication id queue e =
    is_text id e.message_id && is_among (watched_queues queue) e.queue && is_held_status e.status

-- `reset` releases e.
abbrev pub releases : IntakeEvent → IntakeEvent → Bool
releases e reset =
    reset.source_sha256 == e.source_sha256
    && is_release reset.status
    && ltb e.occurred_at reset.occurred_at

abbrev pub holds : List IntakeEvent → Text → Text → IntakeEvent → Bool
unfolding is_publication any
holds events id queue e = is_publication id queue e && not (any (releases e) events)

-- `m.message_id in held`
unfoldable pub is_held : List IntakeEvent → Text → Text → Bool
unfolding holds any
is_held events queue id = any (holds events id queue) events

unfoldable pub eligible : List IntakeEvent → List IntakeMessage → Text → List IntakeMessage × ℕ
unfolding is_held select
eligible events messages queue =
    let selected = select (λ m. not (is_held events queue m.message_id)) messages in
    (selected, length messages - length selected)

abbrev pub reservation : IntakeMessage → Text → ℕ → IntakeEvent
reservation m queue now = record {
  source_sha256 = m.source_sha256;
  source_reference = m.source_reference;
  status = intake_reserved;
  message_id = some m.message_id;
  queue = some queue;
  occurred_at = now;
}

abbrev pub reserve : IntakeMessage → Text → ℕ → List IntakeEvent → List IntakeEvent
reserve m queue now events = reservation m queue now ∷ events

abbrev pub release : ℕ → Text → ℕ → List IntakeEvent → List IntakeEvent
release sha reference now events =
    record {
      source_sha256 = sha;
      source_reference = reference;
      status = intake_released;
      message_id = none;
      queue = none;
      occurred_at = now;
    }
    ∷ events
