-- ===== src/Workflow/Runner/Tests.antt =====
-- A new workflow that is brought to `running`, and the theorems about the runner at it.
use nl2data_core.Common.{◌≡◌, refl, none, ok, arith, List}
use nl2data_core.Common.Text.{is_identifier, is_fingerprint}
use nl2data_core.Workflow.Models.{WorkflowState, state_ok, budget_ok, scope_ok}
use nl2data_core.Workflow.Tests.{new_state}
use nl2data_core.Workflow.Transitions.Liveness.{HasRoom}
use nl2data_core.Workflow.Sqlite.{StateRow, select_state}
use nl2data_core.Workflow.Sqlite.Tests.{iso, table, table-IsTable, new-IsConstructed}
use nl2data_core.Workflow.Runner.{Tick, advance_to_running}
use nl2data_core.Workflow.Runner.Advance.{Advanced}
use nl2data_core.Workflow.Runner.Progress.{Holds, advance_to_running-succeeds}

abbrev first : Tick
first = record { event_id = "ev-1"; moved_at = 7; saved_at = 8 }

abbrev second : Tick
second = record { event_id = "ev-2"; moved_at = 9; saved_at = 10 }

new_state-HasRoom : HasRoom 2 new_state
unfolding state_ok budget_ok is_identifier is_fingerprint
new_state-HasRoom = record { valid = refl; bounded = refl; room = omega arith }

table-Holds : Holds iso "wf-1" none new_state table
unfolding select_state
table-Holds = record { row = _; found = refl; same_status = refl; same_scope = refl }

advance_to_running-succeeds_example :
    (next : WorkflowState) × (after : List StateRow) × (advance_to_running iso "wf-1" none first
        second new_state table
      ≡ ok (next, after))
    × Advanced iso "wf-1" none new_state next after
unfolding scope_ok is_identifier
advance_to_running-succeeds_example =
    advance_to_running-succeeds iso "wf-1" none first second table refl refl refl new_state
      table-IsTable new-IsConstructed table-Holds refl new_state-HasRoom (omega arith)
