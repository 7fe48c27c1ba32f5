-- ===== src/Workflow/Transitions.antt =====
-- workflow/transitions.py: the transition table, `transition` and `checkpoint`. The clock of
-- `datetime.now(UTC)` is the argument `now`.
pub mod Branches
pub mod History
pub mod Reach
pub mod Liveness
use nl2data_core.Common.{
  ℕ, ◌+◌, Bool, true, false, ◌&&◌, not, Option, none, some, List, [], ◌∷◌, ◌++◌, String, Result, ok,
  err, ◌>>=◌, ◌>>◌, raise_if, if◌then◌else◌, ltb, length, any, get_or_else,
}
use nl2data_core.Common.Dict.{Dict, insert}
use nl2data_core.Workflow.Models.{
  WorkflowStatus, created, queued, running, succeeded, failed, closed, WorkflowStage, stage_value,
  is_terminal, status_eq, WorkflowEvent, event_ok, WorkflowState, state_ok, WorkflowError,
  terminal_status, not_allowed, terminal_checkpoint, attempt_budget, event_budget, invalid_event,
  invalid_state,
}

-- `ALLOWED_TRANSITIONS`.
abbrev pub allowed_transitions : WorkflowStatus → List WorkflowStatus
allowed_transitions created = queued ∷ failed ∷ closed ∷ []
allowed_transitions queued = running ∷ failed ∷ closed ∷ []
allowed_transitions running = queued ∷ succeeded ∷ failed ∷ closed ∷ []
allowed_transitions succeeded = []
allowed_transitions failed = []
allowed_transitions closed = []

unfoldable pub validate_transition :
    WorkflowStatus → WorkflowStatus → Result WorkflowError (Unit {0})
validate_transition current target = do
  raise_if (is_terminal current) (terminal_status current target)
  raise_if (not (any (status_eq target) (allowed_transitions current))) (not_allowed current target)

-- `WorkflowEvent(…)` and `WorkflowState(…)`: construction validates.
unfoldable pub construct_event : WorkflowEvent → Result WorkflowError WorkflowEvent
construct_event e = raise_if (not (event_ok e)) invalid_event >> ok e

unfoldable pub construct_state : WorkflowState → Result WorkflowError WorkflowState
construct_state s = raise_if (not (state_ok s)) invalid_state >> ok s

-- The keyword arguments that `transition` and `checkpoint` have in common.
pub record Occurrence : Type 0 where
  pub event_id : String
  pub occurred_at : Option ℕ
  pub metadata : Option (Dict String)

-- The attempts after a move to `target`.
abbrev pub next_attempts : WorkflowState → WorkflowStatus → ℕ
next_attempts s target = if status_eq target running then s.attempts + 1 else s.attempts

check_events : WorkflowState → Result WorkflowError (Unit {0})
check_events s =
    raise_if (ltb s.budget.max_events (length s.events + 1))
      (event_budget (length s.events + 1) s.budget.max_events)

unfoldable pub transition :
    ℕ
    → WorkflowState
    → WorkflowStatus
    → Occurrence
    → Option ℕ
    → Option ℕ
    → Result WorkflowError WorkflowState
unfolding validate_transition construct_event construct_state check_events
transition now s target o retry_count repair_count = do
  validate_transition s.status target
  let attempts = next_attempts s target
  raise_if (status_eq target running && ltb s.budget.max_attempts attempts)
      (attempt_budget attempts s.budget.max_attempts)
  check_events s
  event ← construct_event (record {
    event_id = o.event_id;
    workflow_id = s.workflow_id;
    from_status = s.status;
    to_status = target;
    occurred_at = get_or_else o.occurred_at now;
    metadata = get_or_else o.metadata [];
  })
  construct_state (record s {
    status = target;
    attempts = attempts;
    events = s.events ++ event ∷ [];
    retry_count = get_or_else retry_count s.retry_count;
    repair_count = get_or_else repair_count s.repair_count;
  })

-- The evidence arguments of `checkpoint`.
pub record Evidence : Type 0 where
  pub gate_evidence_fingerprints : Option (List String)
  pub compatibility_fingerprints : Option (Dict String)
  pub cancellation_requested : Option Bool

unfoldable pub checkpoint :
    ℕ → WorkflowState → WorkflowStage → Occurrence → Evidence → Result WorkflowError WorkflowState
unfolding construct_event construct_state check_events
checkpoint now s stage o e = do
  raise_if (is_terminal s.status) (terminal_checkpoint s.workflow_id s.status)
  check_events s
  event ← construct_event (record {
    event_id = o.event_id;
    workflow_id = s.workflow_id;
    from_status = s.status;
    to_status = s.status;
    occurred_at = get_or_else o.occurred_at now;
    metadata = insert "stage" (stage_value stage) (get_or_else o.metadata []);
  })
  construct_state (record s {
    events = s.events ++ event ∷ [];
    current_stage = some stage;
    gate_evidence_fingerprints =
        get_or_else e.gate_evidence_fingerprints s.gate_evidence_fingerprints;
    compatibility_fingerprints =
        get_or_else e.compatibility_fingerprints s.compatibility_fingerprints;
    cancellation_requested = get_or_else e.cancellation_requested s.cancellation_requested;
  })
