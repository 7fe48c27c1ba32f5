-- ===== src/Workflow/Tests.antt =====
-- One workflow run by hand, and the theorems about workflows at it.
use nl2data_core.Common.{arith, ◌≤◌, ◌≡◌, refl, ◌↔◌, false, none, [], ◌∷◌, ok}
use nl2data_core.Common.Text.{is_identifier, is_fingerprint}
use nl2data_core.Workflow.Models.{
  created, queued, running, succeeded, WorkflowBudget, WorkflowState, budget_ok, event_ok, state_ok,
}
use nl2data_core.Workflow.Transitions.{Occurrence, Evidence, validate_transition, transition}
use nl2data_core.Workflow.Transitions.Branches.{◌⟶◌, validate_transition-ok_iff}
use nl2data_core.Workflow.Transitions.History.{IsConsistent}
use nl2data_core.Workflow.Transitions.Reach.{
  move, Run, here, next, IsNew, run-IsConsistent, run-le-max_events,
}
use nl2data_core.Workflow.Transitions.Liveness.{HasRoom, run-succeeds}

abbrev pub budget : WorkflowBudget
budget = record {
  max_attempts = 3;
  max_events = 5;
  max_retries = 3;
  max_repairs = 1;
  max_duration_seconds = 300;
}

abbrev pub new_state : WorkflowState
new_state = record {
  version = 1;
  workflow_id = "wf-1";
  request_id = "req-1";
  tenant_scope_fingerprint = none;
  status = created;
  attempts = 0;
  budget = budget;
  events = [];
  evidence_fingerprints = [];
  current_stage = none;
  gate_evidence_fingerprints = [];
  compatibility_fingerprints = [];
  cancellation_requested = false;
  deadline_at = none;
  retry_count = 0;
  repair_count = 0;
}

abbrev occurrence : Occurrence
occurrence = record { event_id = "ev-1"; occurred_at = none; metadata = none }

abbrev no_evidence : Evidence
no_evidence = record {
  gate_evidence_fingerprints = none;
  compatibility_fingerprints = none;
  cancellation_requested = none;
}

abbrev pub queued_state : WorkflowState
queued_state = record new_state {
  status = queued;
  events =
      record {
        event_id = "ev-1";
        workflow_id = "wf-1";
        from_status = created;
        to_status = queued;
        occurred_at = 7;
        metadata = [];
      }
      ∷ [];
}

queued_by : transition 7 new_state queued occurrence none none ≡ ok queued_state
unfolding transition event_ok state_ok is_identifier is_fingerprint
queued_by = refl

abbrev running_state : WorkflowState
running_state = record queued_state {
  status = running;
  attempts = 1;
  events =
      record {
        event_id = "ev-1";
        workflow_id = "wf-1";
        from_status = created;
        to_status = queued;
        occurred_at = 7;
        metadata = [];
      }
      ∷ record {
        event_id = "ev-1";
        workflow_id = "wf-1";
        from_status = queued;
        to_status = running;
        occurred_at = 9;
        metadata = [];
      }
      ∷ [];
}

running_by : transition 9 queued_state running occurrence none none ≡ ok running_state
unfolding transition event_ok state_ok is_identifier is_fingerprint
running_by = refl

new_state-IsNew : IsNew new_state
new_state-IsNew = record { status_new = refl; attempts_new = refl; events_new = refl }

abbrev two_moves : Run new_state 2 running_state
two_moves =
    next (next here (move 7 queued occurrence none none queued_by))
      (move 9 running occurrence none none running_by)

run-IsConsistent_example : IsConsistent running_state
run-IsConsistent_example = run-IsConsistent new_state-IsNew two_moves

run-le-max_events_example : 2 ≤ 5
run-le-max_events_example = run-le-max_events new_state-IsNew two_moves

abbrev pub done_state : WorkflowState
done_state = record new_state { status = succeeded }

validate_transition-ok_iff_example :
    (validate_transition running queued ≡ ok tt) ↔ (running ⟶ queued)
validate_transition-ok_iff_example = validate_transition-ok_iff running queued

queued_state-HasRoom : HasRoom 2 queued_state
unfolding state_ok budget_ok is_identifier is_fingerprint
queued_state-HasRoom = record { valid = refl; bounded = refl; room = omega arith }

run-succeeds_example : (t : WorkflowState) × Run queued_state 2 t × (t.status ≡ succeeded)
unfolding is_identifier
run-succeeds_example =
    run-succeeds 9 "ev-2" refl queued_state refl queued_state-HasRoom (omega arith)
