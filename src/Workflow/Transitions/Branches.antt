-- ===== src/Workflow/Transitions/Branches.antt =====
-- The branches of `transition` and `checkpoint`: what a success changes, and when it is refused.
use nl2data_core.Common.Dict.{insert}
use nl2data_core.Common.{
  ℕ, ◌+◌, ◌≤◌, ◌≡◌, refl, ◌↔◌, true, false, Option, [], ◌∷◌, ◌++◌, ok, arith, length, any,
  get_or_else,
}
use nl2data_core.Workflow.Models.{
  WorkflowStatus, created, queued, running, succeeded, failed, closed, WorkflowStage, stage_value,
  is_terminal, status_eq, WorkflowEvent, event_ok, WorkflowState, state_ok,
}
use nl2data_core.Workflow.Transitions.{
  allowed_transitions, validate_transition, next_attempts, Occurrence, transition, Evidence,
  checkpoint,
}

-- What every successful operation does to a state.
pub record Advances (s t : WorkflowState) (target : WorkflowStatus) : Type 0 where
  pub event : WorkflowEvent
  pub logged : t.events ≡ s.events ++ event ∷ []
  pub from_eq : event.from_status ≡ s.status
  pub to_eq : event.to_status ≡ target
  pub reached : t.status ≡ target
  pub same_id : t.workflow_id ≡ s.workflow_id
  pub same_request : t.request_id ≡ s.request_id
  pub same_scope : t.tenant_scope_fingerprint ≡ s.tenant_scope_fingerprint
  pub same_budget : t.budget ≡ s.budget
  pub live : is_terminal s.status ≡ false
  pub within_events : length s.events + 1 ≤ s.budget.max_events
  pub valid_event : event_ok event ≡ true
  pub valid_state : state_ok t ≡ true

pub transition-Advances :
    (now : ℕ) (s : WorkflowState) (target : WorkflowStatus) (o : Occurrence) (r p : Option ℕ)
    {t : WorkflowState}
    → transition now s target o r p ≡ ok t
    → Advances s t target
unfolding transition
transition-Advances now s target o r p h = record {
  event = record {
    event_id = o.event_id;
    workflow_id = s.workflow_id;
    from_status = s.status;
    to_status = target;
    occurred_at = get_or_else o.occurred_at now;
    metadata = get_or_else o.metadata [];
  };
  logged = ground arith;
  from_eq = ground arith;
  to_eq = ground arith;
  reached = ground arith;
  same_id = ground arith;
  same_request = ground arith;
  same_scope = ground arith;
  same_budget = ground arith;
  live = ground arith;
  within_events = ground arith;
  valid_event = ground arith;
  valid_state = ground arith;
}

pub transition-attempts :
    (now : ℕ) (s : WorkflowState) (target : WorkflowStatus) (o : Occurrence) (r p : Option ℕ)
    {t : WorkflowState}
    → transition now s target o r p ≡ ok t
    → (t.attempts ≡ next_attempts s target)
      × ((target ≡ running) → t.attempts ≤ s.budget.max_attempts)
      × (any (status_eq target) (allowed_transitions s.status) ≡ true)
unfolding transition
transition-attempts now s target o r p h = (ground arith, ground arith, ground arith)

pub checkpoint-Advances :
    (now : ℕ) (s : WorkflowState) (stage : WorkflowStage) (o : Occurrence) (e : Evidence)
    {t : WorkflowState}
    → checkpoint now s stage o e ≡ ok t
    → Advances s t s.status × (t.attempts ≡ s.attempts)
unfolding checkpoint
checkpoint-Advances now s stage o e h = (
  record {
    event = record {
      event_id = o.event_id;
      workflow_id = s.workflow_id;
      from_status = s.status;
      to_status = s.status;
      occurred_at = get_or_else o.occurred_at now;
      metadata = insert "stage" (stage_value stage) (get_or_else o.metadata []);
    };
    logged = ground arith;
    from_eq = refl;
    to_eq = refl;
    reached = ground arith;
    same_id = ground arith;
    same_request = ground arith;
    same_scope = ground arith;
    same_budget = ground arith;
    live = ground arith;
    within_events = ground arith;
    valid_event = ground arith;
    valid_state = ground arith;
  },
  ground arith,
)

-- The moves of the documented life cycle.
infix 40 ◌⟶◌
pub data ◌⟶◌ : WorkflowStatus → WorkflowStatus → Type 0 where
  enqueue : created ⟶ queued
  start : queued ⟶ running
  retry : running ⟶ queued
  succeed : running ⟶ succeeded
  fail : {s : WorkflowStatus} → is_terminal s ≡ false → s ⟶ failed
  close : {s : WorkflowStatus} → is_terminal s ≡ false → s ⟶ closed

edge_of_valid : (s t : WorkflowStatus) → validate_transition s t ≡ ok tt → s ⟶ t
unfolding validate_transition
edge_of_valid s t h = grind (arith, enqueue, start, retry, succeed, fail, close)

valid_of_edge : {s t : WorkflowStatus} → s ⟶ t → validate_transition s t ≡ ok tt
unfolding validate_transition
valid_of_edge enqueue = refl
valid_of_edge start = refl
valid_of_edge retry = refl
valid_of_edge succeed = refl
valid_of_edge (fail h) = ground arith
valid_of_edge (close h) = ground arith

-- `validate_transition` accepts exactly the moves of the life cycle.
pub validate_transition-ok_iff :
    (s t : WorkflowStatus) → (validate_transition s t ≡ ok tt) ↔ (s ⟶ t)
validate_transition-ok_iff s t = (edge_of_valid s t, valid_of_edge)
