-- ===== src/Workflow/Models.antt =====
-- workflow/models.py: statuses, stages, budgets, events, states, and what pydantic validates when
-- one of them is constructed. A datetime is its instant in microseconds; `max_duration_seconds`, a
-- float that the transitions only carry, is a number of whole seconds. A frozenset is a list.
use nl2data_core.Common.{
  ℕ, ◌≡◌, ◌↔◌, Bool, true, false, ◌&&◌, Option, none, some, List, String, arith, leb, ltb, ◌==◌,
  length, all,
}
use nl2data_core.Common.Text.{is_identifier, is_fingerprint}
use nl2data_core.Common.Dict.{Dict}

pub data WorkflowStatus : Type 0 where
  created queued running succeeded failed closed : WorkflowStatus

pub data WorkflowStage : Type 0 where
  initialize memory intent plan validate compile guard govern : WorkflowStage
  authorize execute protect persist complete : WorkflowStage

-- The member's value, a `StrEnum`'s text.
abbrev pub stage_value : WorkflowStage → String
stage_value WorkflowStage.initialize = "initialize"
stage_value WorkflowStage.memory = "memory"
stage_value WorkflowStage.intent = "intent"
stage_value WorkflowStage.plan = "plan"
stage_value WorkflowStage.validate = "validate"
stage_value WorkflowStage.compile = "compile"
stage_value WorkflowStage.guard = "guard"
stage_value WorkflowStage.govern = "govern"
stage_value WorkflowStage.authorize = "authorize"
stage_value WorkflowStage.execute = "execute"
stage_value WorkflowStage.protect = "protect"
stage_value WorkflowStage.persist = "persist"
stage_value WorkflowStage.complete = "complete"

-- `status in TERMINAL_STATUSES`.
abbrev pub is_terminal : WorkflowStatus → Bool
is_terminal succeeded = true
is_terminal failed = true
is_terminal closed = true
is_terminal _ = false

abbrev status_index : WorkflowStatus → ℕ
status_index created = 0
status_index queued = 1
status_index running = 2
status_index succeeded = 3
status_index failed = 4
status_index closed = 5

-- `==` on statuses.
abbrev pub status_eq : WorkflowStatus → WorkflowStatus → Bool
status_eq s t = status_index s == status_index t

pub status_eq_iff : (s t : WorkflowStatus) → (status_eq s t ≡ true) ↔ (s ≡ t)
status_eq_iff s t = ground arith

pub record WorkflowBudget : Type 0 where
  pub max_attempts : ℕ
  pub max_events : ℕ
  pub max_retries : ℕ
  pub max_repairs : ℕ
  pub max_duration_seconds : ℕ

-- The bounds that the fields of `WorkflowBudget` declare.
unfoldable pub budget_ok : WorkflowBudget → Bool
budget_ok b =
    leb 1 b.max_attempts
    && leb b.max_attempts 100
    && leb 1 b.max_events
    && leb b.max_events 10_000
    && leb 1 b.max_retries
    && leb b.max_retries 100
    && leb 1 b.max_repairs
    && leb b.max_repairs 100
    && ltb 0 b.max_duration_seconds
    && leb b.max_duration_seconds 86_400

pub record WorkflowEvent : Type 0 where
  pub event_id : String
  pub workflow_id : String
  pub from_status : WorkflowStatus
  pub to_status : WorkflowStatus
  pub occurred_at : ℕ
  pub metadata : Dict String

-- The constraints of the fields of `WorkflowEvent`; `_MAX_EVENT_METADATA` is 32.
unfoldable pub event_ok : WorkflowEvent → Bool
event_ok e = is_identifier e.event_id && is_identifier e.workflow_id && leb (length e.metadata) 32

pub record WorkflowState : Type 0 where
  pub version : ℕ
  pub workflow_id : String
  pub request_id : String
  pub tenant_scope_fingerprint : Option String
  pub status : WorkflowStatus
  pub attempts : ℕ
  pub budget : WorkflowBudget
  pub events : List WorkflowEvent
  pub evidence_fingerprints : List String
  pub current_stage : Option WorkflowStage
  pub gate_evidence_fingerprints : List String
  pub compatibility_fingerprints : Dict String
  pub cancellation_requested : Bool
  pub deadline_at : Option ℕ
  pub retry_count : ℕ
  pub repair_count : ℕ

unfoldable pub scope_ok : Option String → Bool
scope_ok none = true
scope_ok (some fingerprint) = is_fingerprint fingerprint

unfoldable pub compatibility_entry_ok : String × String → Bool
compatibility_entry_ok (key, fingerprint) = is_identifier key && is_fingerprint fingerprint

unfoldable pub identity_ok : WorkflowState → Bool
unfolding scope_ok
identity_ok s =
    s.version == 1
    && is_identifier s.workflow_id
    && is_identifier s.request_id
    && scope_ok s.tenant_scope_fingerprint

-- `_valid_fingerprints` and `_valid_compatibility_fingerprints`.
unfoldable pub references_ok : WorkflowState → Bool
unfolding compatibility_entry_ok
references_ok s =
    all is_fingerprint s.evidence_fingerprints
    && all is_fingerprint s.gate_evidence_fingerprints
    && all compatibility_entry_ok s.compatibility_fingerprints
    && leb (length s.compatibility_fingerprints) 16

-- The constraints and validators of `WorkflowState`.
unfoldable pub state_ok : WorkflowState → Bool
unfolding identity_ok references_ok
state_ok s =
    identity_ok s
    && references_ok s
    && leb s.attempts 100
    && leb s.retry_count 100
    && leb s.repair_count 100

-- A state that passes construction never counts more than a hundred attempts, retries or repairs.
pub state_ok-counters : (s : WorkflowState) → state_ok s ≡ true → leb s.attempts 100 ≡ true
unfolding state_ok
state_ok-counters s h = ground arith

-- What the operations of this package raise.
pub data WorkflowError : Type 0 where
  -- `WorkflowTransitionError`, with its `from` and `to`
  terminal_status : WorkflowStatus → WorkflowStatus → WorkflowError
  not_allowed : WorkflowStatus → WorkflowStatus → WorkflowError
  terminal_checkpoint : String → WorkflowStatus → WorkflowError
  -- `WorkflowBudgetError`, with the count and its bound
  attempt_budget : ℕ → ℕ → WorkflowError
  event_budget : ℕ → ℕ → WorkflowError
  -- pydantic's `ValidationError`
  invalid_event : WorkflowError
  invalid_state : WorkflowError
