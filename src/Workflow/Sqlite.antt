-- ===== src/Workflow/Sqlite.antt =====
-- workflow/sqlite_store.py: the `workflow_states` table of `SQLiteStateStore`. A table is the list of
-- its rows, and a statement a function on them. Each method is one transaction under the lock: it
-- returns the new database, or raises and the transaction is rolled back. A reading
-- of the clock, and a datetime that a row has from a snapshot, is an instant, and `iso` writes its text
-- in UTC; a time that the caller gives is its text. The database is open and not locked.
pub mod Idempotency
pub mod Keys
pub mod Refinement
pub mod Creation
pub mod Table
pub mod Batches
pub mod Cleanup
pub mod Reach
pub mod Tests
use Prim.Native.String.{◌++◌ as str_append}
use nl2data_core.Common.{
  ℕ, ◌+◌, Bool, true, false, ◌&&◌, not, Option, none, some, List, [], ◌∷◌, ◌++◌, String, Result, ok,
  err, ◌>>=◌, ◌>>◌, raise_if, if◌then◌else◌, ltb, leb, ◌==◌, str_eq, opt_eq, is_some, length, map,
}
use nl2data_core.Common.Text.{is_fingerprint}
use nl2data_core.Common.Json.{Json}
use nl2data_core.Common.Sort.{sorted}
use nl2data_core.Workflow.Models.{WorkflowStatus, WorkflowState, is_terminal, status_eq}
use nl2data_core.Workflow.Snapshot.{
  Iso, SerializationError, snapshot_schema_version, serialize_snapshot,
}
use nl2data_core.Workflow.Snapshot.Reading.{deserialize_snapshot}

-- A row of `workflow_states`.
pub record StateRow : Type 0 where
  pub workflow_id : String
  pub request_id : String
  pub tenant_scope_fingerprint : Option String
  pub scope_namespace : String
  pub status : WorkflowStatus
  pub revision : ℕ
  pub schema_version : ℕ
  pub snapshot : Option Json
  pub created_at : ℕ
  pub updated_at : ℕ
  pub expires_at : Option String

-- What the methods raise.
pub data SqlError : Type 0 where
  already_exists not_found scope_mismatch : String → SqlError
  terminal_status : WorkflowStatus → WorkflowStatus → SqlError
  status_changed : String → WorkflowStatus → SqlError
  version_changed : String → ℕ → ℕ → SqlError
  malformed_snapshot : String → SerializationError → SqlError
  value_error : SqlError

-- `tenant_scope_namespace`, of the kind that the store uses.
abbrev pub tenant_scope_namespace : String → Result SqlError String
tenant_scope_namespace scope_fingerprint =
    raise_if (not (is_fingerprint scope_fingerprint)) value_error
    >> ok (str_append "tenant:workflow:" scope_fingerprint)

-- `_namespace`
abbrev pub namespace : Option String → Result SqlError String
namespace none = ok ""
namespace (some fingerprint) = tenant_scope_namespace fingerprint

-- `WHERE scope_namespace = ? AND workflow_id = ?`
abbrev pub has_state_key : String → String → StateRow → Bool
has_state_key ns workflow_id r = str_eq r.scope_namespace ns && str_eq r.workflow_id workflow_id

-- `SELECT ... WHERE` and `fetchone`
unfoldable pub select_state : String → String → List StateRow → Option StateRow
select_state ns workflow_id [] = none
select_state ns workflow_id (r ∷ rows) =
    if has_state_key ns workflow_id r then some r else select_state ns workflow_id rows

-- `INSERT`; the key is the primary one.
unfoldable pub insert_state : StateRow → List StateRow → Result SqlError (List StateRow)
unfolding select_state
insert_state r rows =
    raise_if (is_some (select_state r.scope_namespace r.workflow_id rows))
      (already_exists r.workflow_id)
    >> ok (rows ++ r ∷ [])

-- `UPDATE ... WHERE`
unfoldable pub update_states :
    String → String → (StateRow → StateRow) → List StateRow → List StateRow
update_states ns workflow_id f [] = []
update_states ns workflow_id f (r ∷ rows) =
    (if has_state_key ns workflow_id r then f r else r) ∷ update_states ns workflow_id f rows

module _ (iso : Iso) where
  -- The row that `create` inserts.
  abbrev pub new_row : ℕ → WorkflowState → String → StateRow
  new_row now state ns = record {
    workflow_id = state.workflow_id;
    request_id = state.request_id;
    tenant_scope_fingerprint = state.tenant_scope_fingerprint;
    scope_namespace = ns;
    status = state.status;
    revision = 1;
    schema_version = snapshot_schema_version;
    snapshot = serialize_snapshot iso state;
    created_at = now;
    updated_at = now;
    expires_at = none;
  }

  unfoldable pub create : ℕ → WorkflowState → List StateRow → Result SqlError (List StateRow)
  unfolding insert_state
  create now state rows =
      namespace state.tenant_scope_fingerprint >>= λ ns. insert_state (new_row now state ns) rows

  -- The columns that `update` sets.
  abbrev pub updated_row : ℕ → WorkflowState → StateRow → StateRow
  updated_row now state r = record r {
    request_id = state.request_id;
    tenant_scope_fingerprint = state.tenant_scope_fingerprint;
    status = state.status;
    revision = r.revision + 1;
    snapshot = serialize_snapshot iso state;
    updated_at = now;
  }

  -- The tests of `update` on the row that it selected.
  unfoldable pub check_row :
      String → StateRow → WorkflowStatus → WorkflowState → Option ℕ → Result SqlError (Unit {0})
  check_row workflow_id r expected_status state expected_version =
      raise_if (not (opt_eq r.tenant_scope_fingerprint state.tenant_scope_fingerprint))
        (scope_mismatch workflow_id)
      >> (raise_if (is_terminal r.status && not (status_eq state.status r.status))
            (terminal_status r.status state.status)
          >> (raise_if (not (status_eq r.status expected_status))
                (status_changed workflow_id expected_status)
              >> elim expected_version [
                | none ↦ ok tt
                | some version ↦
                    raise_if (not (r.revision == version))
                      (version_changed workflow_id version r.revision)
              ]))

  -- `update`, once the row was selected.
  unfoldable pub update_selected :
      ℕ
      → String
      → WorkflowStatus
      → WorkflowState
      → Option ℕ
      → String
      → Option StateRow
      → List StateRow
      → Result SqlError (List StateRow)
  unfolding check_row update_states
  update_selected now workflow_id expected_status state expected_version ns none rows =
      err (not_found workflow_id)
  update_selected now workflow_id expected_status state expected_version ns (some r) rows =
      check_row workflow_id r expected_status state expected_version
      >> ok (update_states ns workflow_id (updated_row now state) rows)

  unfoldable pub update :
      ℕ
      → String
      → WorkflowStatus
      → WorkflowState
      → Option ℕ
      → Option String
      → List StateRow
      → Result SqlError (List StateRow)
  unfolding update_selected
  update now workflow_id expected_status state expected_version scope rows =
      namespace scope >>= λ ns.
      update_selected now workflow_id expected_status state expected_version ns
        (select_state ns workflow_id rows) rows

  -- Reads the snapshot of the row that was selected, if there is one.
  unfoldable pub read_row : ℕ → String → Option StateRow → Result SqlError (Option WorkflowState)
  read_row now workflow_id none = ok none
  read_row now workflow_id (some r) = elim (deserialize_snapshot iso now r.snapshot) [
    | ok state ↦ ok (some state)
    | err e ↦ err (malformed_snapshot workflow_id e)
  ]

  unfoldable pub get :
      ℕ → String → Option String → List StateRow → Result SqlError (Option WorkflowState)
  unfolding read_row
  get now workflow_id scope rows =
      namespace scope >>= λ ns. read_row now workflow_id (select_state ns workflow_id rows)

  -- `AND request_id = ?`
  abbrev bound_row : String → Option StateRow → Option StateRow
  bound_row request_id none = none
  bound_row request_id (some r) = if str_eq r.request_id request_id then some r else none

  unfoldable pub get_checkpoint :
      ℕ → String → String → Option String → List StateRow → Result SqlError (Option WorkflowState)
  get_checkpoint now workflow_id request_id scope rows = namespace scope >>= λ ns.
      read_row now workflow_id (bound_row request_id (select_state ns workflow_id rows))

unfoldable pub get_revision : String → Option String → List StateRow → Result SqlError (Option ℕ)
get_revision workflow_id scope rows = namespace scope >>= λ ns.
    elim (select_state ns workflow_id rows) [ none ↦ ok none | some r ↦ ok (some r.revision) ]

-- `SELECT workflow_id WHERE scope_namespace = ?`
unfoldable pub ids_in_namespace : String → List StateRow → List String
ids_in_namespace ns [] = []
ids_in_namespace ns (r ∷ rows) =
    let rest = ids_in_namespace ns rows in
    if str_eq r.scope_namespace ns then r.workflow_id ∷ rest else rest

unfoldable pub list_ids : Option String → List StateRow → Result SqlError (List String)
unfolding ids_in_namespace
list_ids scope rows = namespace scope >>= λ ns. ok (sorted (ids_in_namespace ns rows))
