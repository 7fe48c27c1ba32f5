-- ===== src/Workflow/Transitions/Liveness.antt =====
-- Progress of workflows by `transition` (workflow/transitions.py), while the budget lasts.
use nl2data_core.Common.{
  ℕ, suc, ◌+◌, ◌≤◌, ◌≡◌, refl, inl, inr, Bool-cases, true, false, none, [], ◌∷◌, ◌++◌, String,
  arith, ok, length, length-append, any,
}
use nl2data_core.Common.Text.{is_identifier}
use nl2data_core.Workflow.Models.{
  WorkflowStatus, created, queued, running, succeeded, failed, closed, is_terminal, status_eq,
  budget_ok, WorkflowEvent, event_ok, WorkflowState, state_ok, identity_ok,
}
use nl2data_core.Workflow.Transitions.{allowed_transitions, next_attempts, Occurrence, transition}
use nl2data_core.Workflow.Transitions.Reach.{Step, move, Run, here, next}

-- The occurrence with no optional argument.
abbrev pub plain : String → Occurrence
plain id = record { event_id = id; occurred_at = none; metadata = none }

abbrev pub last_event : ℕ → String → WorkflowState → WorkflowStatus → WorkflowEvent
last_event now id s target = record {
  event_id = id;
  workflow_id = s.workflow_id;
  from_status = s.status;
  to_status = target;
  occurred_at = now;
  metadata = [];
}

-- The state after a move.
abbrev pub moved : ℕ → String → WorkflowState → WorkflowStatus → WorkflowState
moved now id s target = record s {
  status = target;
  attempts = next_attempts s target;
  events = s.events ++ last_event now id s target ∷ [];
}

-- A constructed state, with room for `n` events.
pub record HasRoom (n : ℕ) (s : WorkflowState) : Type 0 where
  pub valid : state_ok s ≡ true
  pub bounded : budget_ok s.budget ≡ true
  pub room : length s.events + n ≤ s.budget.max_events

within_hundred :
    (s : WorkflowState)
    → budget_ok s.budget ≡ true
    → s.attempts + 1 ≤ s.budget.max_attempts
    → s.attempts + 1 ≤ 100
unfolding budget_ok
within_hundred s h k = ground arith

state_ok-moved :
    (now : ℕ) (id : String) (s : WorkflowState) (target : WorkflowStatus)
    → state_ok s ≡ true
    → next_attempts s target ≤ 100
    → state_ok (moved now id s target) ≡ true
unfolding state_ok identity_ok
state_ok-moved now id s target h k = ground arith

state_ok-workflow_id : (s : WorkflowState) → state_ok s ≡ true → is_identifier s.workflow_id ≡ true
unfolding state_ok identity_ok
state_ok-workflow_id s h = ground arith

state_ok-attempts : (s : WorkflowState) → state_ok s ≡ true → s.attempts ≤ 100
unfolding state_ok
state_ok-attempts s h = ground arith

-- The attempts allow the move.
abbrev pub Affords : WorkflowState → WorkflowStatus → Type 0
Affords s target = (status_eq target running ≡ true) → s.attempts + 1 ≤ s.budget.max_attempts

next_attempts-le :
    (s : WorkflowState) (target : WorkflowStatus)
    → state_ok s ≡ true
    → budget_ok s.budget ≡ true
    → Affords s target
    → next_attempts s target ≤ 100
next_attempts-le s target v b a = elim (Bool-cases (status_eq target running)) [
  | inl runs ↦ rw runs (within_hundred s b (a runs))
  | inr stays ↦ rw stays (state_ok-attempts s v)
]

-- A move of the table succeeds while there is an event, and for `running` an attempt, of budget left.
pub transition-moves :
    (now : ℕ) (id : String) (s : WorkflowState) (target : WorkflowStatus) {n : ℕ}
    → is_identifier id ≡ true
    → HasRoom (suc n) s
    → is_terminal s.status ≡ false
    → any (status_eq target) (allowed_transitions s.status) ≡ true
    → Affords s target
    → transition now s target (plain id) none none ≡ ok (moved now id s target)
unfolding transition event_ok
transition-moves now id s target {n} named h live allowed a =
    let valid =
      state_ok-moved now id s target h.valid (next_attempts-le s target h.valid h.bounded a) in
    let own = state_ok-workflow_id s h.valid in
    let room : (length s.events + suc n ≤ s.budget.max_events) = h.room in ground arith

pub HasRoom-moved :
    (now : ℕ) (id : String) (s : WorkflowState) (target : WorkflowStatus) (n : ℕ)
    → HasRoom (suc n) s
    → Affords s target
    → HasRoom n (moved now id s target)
HasRoom-moved now id s target n h a = record {
  valid = state_ok-moved now id s target h.valid (next_attempts-le s target h.valid h.bounded a);
  bounded = h.bounded;
  room = rw (length-append s.events (last_event now id s target ∷ [])) omega (arith, h.room);
}

step :
    (now : ℕ) (id : String) (s : WorkflowState) (target : WorkflowStatus) {n : ℕ}
    → is_identifier id ≡ true
    → HasRoom (suc n) s
    → is_terminal s.status ≡ false
    → any (status_eq target) (allowed_transitions s.status) ≡ true
    → Affords s target
    → Step s (moved now id s target)
step now id s target named h live allowed a =
    move now target (plain id) none none (transition-moves now id s target named h live allowed a)

-- The number of moves from a status to `succeeded`.
abbrev pub moves_left : WorkflowStatus → ℕ
moves_left created = 3
moves_left queued = 2
moves_left running = 1
moves_left _ = 0

-- A workflow that can still succeed, by a run of `n` operations.
abbrev Succeeds : ℕ → WorkflowState → Type 0
Succeeds n s = (t : WorkflowState) × Run s n t × (t.status ≡ succeeded)

module _ (now : ℕ) (id : String) (named : is_identifier id ≡ true) where
  from_running :
      (s : WorkflowState) → s.status ≡ running → HasRoom 1 s → Step s (moved now id s succeeded)
  from_running s at h = step now id s succeeded named h (rw at refl) (rw at refl) (λ e. cc)

  from_queued :
      (s : WorkflowState)
      → s.status ≡ queued
      → HasRoom 2 s
      → s.attempts + 1 ≤ s.budget.max_attempts
      → Step s (moved now id s running) × HasRoom 1 (moved now id s running)
  from_queued s at h a = (
    step now id s running named h (rw at refl) (rw at refl) (λ e. a),
    HasRoom-moved now id s running 1 h (λ e. a),
  )

  from_created :
      (s : WorkflowState)
      → s.status ≡ created
      → HasRoom 3 s
      → Step s (moved now id s queued) × HasRoom 2 (moved now id s queued)
  from_created s at h = (
    step now id s queued named h (rw at refl) (rw at refl) (λ e. cc),
    HasRoom-moved now id s queued 2 h (λ e. cc),
  )

  from_status :
      (w : WorkflowStatus) (s : WorkflowState)
      → s.status ≡ w
      → is_terminal w ≡ false
      → HasRoom (moves_left w) s
      → s.attempts + 1 ≤ s.budget.max_attempts
      → Succeeds (moves_left w) s
  from_status running s at live h a =
      (moved now id s succeeded, next here (from_running s at h), refl)
  from_status queued s at live h a =
      let (start, room) = from_queued s at h a in
      (
        moved now id (moved now id s running) succeeded,
        next (next here start) (from_running (moved now id s running) refl room),
        refl,
      )
  from_status created s at live h a =
      let (enqueue, left) = from_created s at h in
      let (start, room) = from_queued (moved now id s queued) refl left a in
      (
        moved now id (moved now id (moved now id s queued) running) succeeded,
        next (next (next here enqueue) start)
            (from_running (moved now id (moved now id s queued) running) refl room),
        refl,
      )
  from_status succeeded s at live h a = cc
  from_status failed s at live h a = cc
  from_status closed s at live h a = cc

  -- From a state that passes validation, is not terminal, and has an attempt of budget left and an
  -- event for each move that is left on the way `created`, `queued`, `running`, `succeeded`, that many
  -- operations in a row succeed and end in `succeeded`. `id` is any valid identifier, for the events.
  pub run-succeeds :
      (s : WorkflowState)
      → is_terminal s.status ≡ false
      → HasRoom (moves_left s.status) s
      → s.attempts + 1 ≤ s.budget.max_attempts
      → (t : WorkflowState) × Run s (moves_left s.status) t × (t.status ≡ succeeded)
  run-succeeds s live h a = from_status s.status s refl live h a
