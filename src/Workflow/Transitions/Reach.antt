-- ===== src/Workflow/Transitions/Reach.antt =====
-- Workflows as sequences of successful operations, from a freshly created state.
use nl2data_core.Common.{
  ℕ, zero, suc, ◌+◌, ◌≤◌, ◌≡◌, refl, true, Option, [], length, arith, ok, length-append, ◌∷◌,
}
use nl2data_core.Workflow.Models.{
  WorkflowStatus, created, WorkflowStage, is_terminal, WorkflowState,
}
use nl2data_core.Workflow.Transitions.{Occurrence, transition, Evidence, checkpoint}
use nl2data_core.Workflow.Transitions.Branches.{Advances, transition-Advances, checkpoint-Advances}
use nl2data_core.Workflow.Transitions.History.{
  replay, entries, IsConsistent, transition-IsConsistent, checkpoint-IsConsistent,
}

-- One operation that succeeds, at any clock reading and with any arguments.
pub data Step (s t : WorkflowState) : Type 0 where
  move :
      (now : ℕ) (target : WorkflowStatus) (o : Occurrence) (r p : Option ℕ)
      → transition now s target o r p ≡ ok t
      → Step s t
  mark :
      (now : ℕ) (stage : WorkflowStage) (o : Occurrence) (e : Evidence)
      → checkpoint now s stage o e ≡ ok t
      → Step s t

-- `n` operations in a row.
pub data Run (s : WorkflowState) : ℕ → WorkflowState → Type 0 where
  here : Run s zero s
  next : {n : ℕ} {t u : WorkflowState} → Run s n t → Step t u → Run s (suc n) u

-- The defaults of `WorkflowState(…)`, as a new workflow is created.
pub record IsNew (s : WorkflowState) : Type 0 where
  pub status_new : s.status ≡ created
  pub attempts_new : s.attempts ≡ 0
  pub events_new : s.events ≡ []

IsNew-IsConsistent : {s : WorkflowState} → IsNew s → IsConsistent s
unfolding replay entries
IsNew-IsConsistent h = record {
  replayed = ground arith;
  counted = ground arith;
  attempts_within = ground arith;
  events_within = ground arith;
}

Step-IsConsistent : {s t : WorkflowState} → Step s t → IsConsistent s → IsConsistent t
Step-IsConsistent {s} (move now target o r p h) c = transition-IsConsistent now s target o r p h c
Step-IsConsistent {s} (mark now stage o e h) c = checkpoint-IsConsistent now s stage o e h c

-- However a workflow is run, replaying its log from `created` follows the table step by step and
-- ends in its status, its attempts are the entries into `running` in the log, and both the attempts
-- and the log stay within the budget.
pub run-IsConsistent : {s t : WorkflowState} {n : ℕ} → IsNew s → Run s n t → IsConsistent t
run-IsConsistent h here = IsNew-IsConsistent h
run-IsConsistent h (next r st) = Step-IsConsistent st (run-IsConsistent h r)

-- What no operation changes, and the one event that it adds.
record Grows (s t : WorkflowState) : Type 0 where
  one_more : length t.events ≡ length s.events + 1
  same_budget : t.budget ≡ s.budget
  same_id : t.workflow_id ≡ s.workflow_id
  same_request : t.request_id ≡ s.request_id
  same_scope : t.tenant_scope_fingerprint ≡ s.tenant_scope_fingerprint

Advances-Grows : {s t : WorkflowState} {target : WorkflowStatus} → Advances s t target → Grows s t
Advances-Grows {s} a = record {
  one_more = rw a.logged (length-append s.events (a.event ∷ []));
  same_budget = a.same_budget;
  same_id = a.same_id;
  same_request = a.same_request;
  same_scope = a.same_scope;
}

Step-Grows : {s t : WorkflowState} → Step s t → Grows s t
Step-Grows {s} (move now target o r p h) = Advances-Grows (transition-Advances now s target o r p h)
Step-Grows {s} (mark now stage o e h) = Advances-Grows (checkpoint-Advances now s stage o e h).0

-- A run keeps the identity, the request and the tenant scope of its workflow.
pub run-same_identity :
    {s t : WorkflowState} {n : ℕ}
    → Run s n t
    → (t.workflow_id ≡ s.workflow_id)
      × (t.request_id ≡ s.request_id)
      × (t.tenant_scope_fingerprint ≡ s.tenant_scope_fingerprint)
      × (t.budget ≡ s.budget)
run-same_identity here = (refl, refl, refl, refl)
run-same_identity (next r st) =
    let g = Step-Grows st in
    let (same_id, same_request, same_scope, same_budget) = run-same_identity r in
    (ground arith, ground arith, ground arith, ground arith)

run-length : {s t : WorkflowState} {n : ℕ} → IsNew s → Run s n t → length t.events ≡ n
run-length h here = rw h.events_new
run-length h (next r st) = omega (arith, run-length h r, (Step-Grows st).one_more)

-- Every run from a new workflow ends after at most as many operations as its budget has events.
pub run-le-max_events :
    {s t : WorkflowState} {n : ℕ} → IsNew s → Run s n t → n ≤ s.budget.max_events
run-le-max_events h r =
    let (_, _, _, same_budget) = run-same_identity r in
    ground (arith, run-length h r, (run-IsConsistent h r).events_within)

-- No operation leads on from a terminal status.
pub not-Step-terminal : {s t : WorkflowState} → is_terminal s.status ≡ true → ¬ Step s t
not-Step-terminal {s} e (move now target o r p h) =
    ground (arith, (transition-Advances now s target o r p h).live)
not-Step-terminal {s} e (mark now stage o ev h) =
    ground (arith, (checkpoint-Advances now s stage o ev h).0.live)
