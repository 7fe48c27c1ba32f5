-- ===== src/Workflow/Runner.antt =====
-- workflow/runner.py: `_step` and `_advance_to_running`, by which `_execute_durable` brings a checkpoint
-- to `running`, over the table of `SQLiteStateStore`. The random event id and the readings of the clock of
-- one step are its `Tick`.
pub mod Advance
pub mod Progress
mod Tests
use nl2data_core.Common.{ℕ, none, some, Option, List, String, Result, ok, err, ◌>>=◌}
use nl2data_core.Workflow.Models.{
  WorkflowStatus, created, queued, running, WorkflowState, WorkflowError,
}
use nl2data_core.Workflow.Transitions.{Occurrence, transition}
use nl2data_core.Workflow.Snapshot.{Iso}
use nl2data_core.Workflow.Sqlite.{StateRow, SqlError, get_revision, update}

pub record Tick : Type 0 where
  pub event_id : String
  pub moved_at : ℕ
  pub saved_at : ℕ

pub data RunnerError : Type 0 where
  store_error : SqlError → RunnerError
  workflow_error : WorkflowError → RunnerError
  not_resumable : String → WorkflowStatus → RunnerError

-- An exception of the store, or of the transition, that passes through.
abbrev pub from_store {ℓ} : {A : Type ℓ} → Result SqlError A → Result RunnerError A
from_store (ok a) = ok a
from_store (err e) = err (store_error e)

abbrev pub from_workflow {ℓ} : {A : Type ℓ} → Result WorkflowError A → Result RunnerError A
from_workflow (ok a) = ok a
from_workflow (err e) = err (workflow_error e)

abbrev pub occurrence_of : Tick → Occurrence
occurrence_of tick = record { event_id = tick.event_id; occurred_at = none; metadata = none }

module _ (iso : Iso) (workflow_id : String) (scope : Option String) where
  -- `_step`: the new state, and the table.
  unfoldable pub step :
      Tick
      → WorkflowStatus
      → WorkflowState
      → List StateRow
      → Result RunnerError (WorkflowState × List StateRow)
  step tick target state rows = do
    revision ← from_store (get_revision workflow_id scope rows)
    next ← from_workflow (transition tick.moved_at state target (occurrence_of tick) none none)
    after ← from_store (update iso tick.saved_at workflow_id state.status next revision scope rows)
    ok (next, after)

  -- `_advance_to_running`, with the ticks of its steps.
  unfoldable pub advance_to_running :
      Tick
      → Tick
      → WorkflowState
      → List StateRow
      → Result RunnerError (WorkflowState × List StateRow)
  unfolding step
  advance_to_running first second state rows = elim state.status [
    | created ↦ step first queued state rows >>= λ done. step second running done.0 done.1
    | queued ↦ step first running state rows
    | running ↦ step first queued state rows >>= λ done. step second running done.0 done.1
    | status ↦ err (not_resumable workflow_id status)
  ]
