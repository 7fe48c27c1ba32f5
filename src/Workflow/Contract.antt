-- ===== src/Workflow/Contract.antt =====
-- What the `StateStore` protocol promises of the record of one workflow in one tenant scope
-- (workflow/store.py): versioned compare-and-set on an entry, with the class of the exception that is
-- raised.
use nl2data_core.Common.{
  ℕ, ◌+◌, ◌≡◌, ◌&&◌, not, Option, none, some, String, Result, ok, err, ◌>>◌, raise_if,
  if◌then◌else◌, ◌==◌, str_eq, opt_eq,
}
use nl2data_core.Workflow.Models.{WorkflowStatus, WorkflowState, is_terminal, status_eq}

-- What a store holds of a workflow.
pub record Entry : Type 0 where
  pub state : WorkflowState
  pub revision : ℕ
  pub updated_at : ℕ

-- The exceptions by class.
pub data ErrorClass : Type 0 where
  workflow_state_error workflow_transition_error serialization_error value_error key_error :
      ErrorClass

-- A new workflow gets an entry of its own.
unfoldable pub create_entry : ℕ → WorkflowState → Option Entry → Result ErrorClass Entry
create_entry now state none = ok (record { state = state; revision = 1; updated_at = now })
create_entry now state (some e) = err workflow_state_error

-- The stored workflow, the expected status and the expected version allow the new state.
abbrev pub check_entry :
    WorkflowStatus → WorkflowState → Option ℕ → Entry → Result ErrorClass (Unit {0})
check_entry expected_status state expected_version e =
    raise_if (not (opt_eq e.state.tenant_scope_fingerprint state.tenant_scope_fingerprint))
      workflow_state_error
    >> (raise_if (is_terminal e.state.status && not (status_eq state.status e.state.status))
          workflow_transition_error
        >> (raise_if (not (status_eq e.state.status expected_status)) workflow_state_error
            >> elim expected_version [
              | none ↦ ok tt
              | some version ↦ raise_if (not (e.revision == version)) workflow_state_error
            ]))

-- An allowed state replaces the stored one, at the next revision.
unfoldable pub update_entry :
    ℕ → WorkflowStatus → WorkflowState → Option ℕ → Option Entry → Result ErrorClass Entry
update_entry now expected_status state expected_version none = err workflow_state_error
update_entry now expected_status state expected_version (some e) =
    check_entry expected_status state expected_version e
    >> ok (record { state = state; revision = e.revision + 1; updated_at = now })

-- A call on a store of type `Db` does to the entry at `scope` and `workflow_id` what `promised` says,
-- and nothing to any other entry: `entry` reads the entries.
module _ {Db E : Type 0} (entry : Option String → String → Db → Option Entry)
    (class : E → ErrorClass) (scope : Option String) (workflow_id : String) where
  abbrev pub Implements : Db → Result E Db → Result ErrorClass Entry → Type 0
  Implements before (ok after) (ok new) =
      (other : Option String) (id : String)
      → entry other id after
        ≡ (if opt_eq other scope && str_eq id workflow_id then some new else entry other id before)
  Implements before (err e) (err f) = class e ≡ f
  Implements before _ _ = ⊥
