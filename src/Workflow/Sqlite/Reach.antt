-- ===== src/Workflow/Sqlite/Reach.antt =====
-- The databases that sequences of calls of `SQLiteStateStore` reach.
pub mod States
pub mod Records
use nl2data_core.Common.{
  then_ok, bind_ok, ok_injective, ℕ, ◌+◌, ◌≡◌, ◌↔◌, refl, sym, ap, ◌∙◌, inl, inr, Bool-cases, Bool,
  true, false, ◌&&◌, not, Option, none, some, List, [], ◌∷◌, ◌++◌, String, Result, ok, err, ◌>>=◌,
  ◌>>◌, raise_if, arith, All, All-append, str_eq, opt_eq, str_eq_iff, if◌then◌else◌, is_some, subst,
  ltb,
}
use nl2data_core.Common.Text.{is_fingerprint}
use nl2data_core.Workflow.Models.{WorkflowStatus, WorkflowState, scope_ok}
use nl2data_core.Workflow.Snapshot.{Iso}
use nl2data_core.Workflow.Snapshot.RoundTrip.{IsConstructed}
use nl2data_core.Workflow.Sqlite.{
  StateRow, SqlError, value_error, namespace, select_state, insert_state, update_states, new_row,
  create, updated_row, check_row, update_selected, update,
}
use nl2data_core.Workflow.Sqlite.Idempotency.{
  IdempotencyStatus, reserved, completed, IdempotencyRecord, IdempotencyError, Binding,
  select_record, validate_identity, scope_name, new_record, is_expired, check_binding,
  delete_records, update_records, reserve_selected, reserve_idempotency, check_completion,
  completed_record, complete_selected, complete_idempotency,
}
use nl2data_core.Workflow.Sqlite.Refinement.{IsRow, IsTable}
use nl2data_core.Workflow.Sqlite.Table.{create-IsTable, update-IsTable}
use nl2data_core.Workflow.Sqlite.Batches.{delete, delete_batch, find, IsKeyed}
use nl2data_core.Workflow.Sqlite.Batches as Batches
use nl2data_core.Workflow.Sqlite.Batches.Keyed.{
  IsKeyed-append, find-delete_self, IsKeyed-delete, IsKeyed-delete_batch, All-delete,
  All-delete_batch, IsKeyed-update,
}
use nl2data_core.Workflow.Sqlite.Cleanup.{
  Database, ended_batch, expired_batch, state_namespace, state_id, record_namespace, record_key,
  select_state-find, select_record-find, cleanup,
}
use nl2data_core.Workflow.Sqlite.Reach.States.{
  create-IsKeyed, update-IsKeyed, scope_ok-of_namespace,
}
use nl2data_core.Workflow.Sqlite.Reach.Records.{
  outcome_ok, AreRecords, reserve-AreRecords, complete-AreRecords,
}

-- One successful call, at any clock reading.
module _ (iso : Iso) (scan : List (String × String) → List (String × String)) where
  pub data Step : Database → Database → Type 0 where
    creating :
        (now : ℕ) (state : WorkflowState) {rows : List StateRow} {db : Database}
        → IsConstructed state
        → create iso now state db.states ≡ ok rows
        → Step db (record db { states = rows })
    updating :
        (now : ℕ) (id : String) (expected : WorkflowStatus) (state : WorkflowState)
        (version : Option ℕ) (scope : Option String) {rows : List StateRow} {db : Database}
        → IsConstructed state
        → update iso now id expected state version scope db.states ≡ ok rows
        → Step db (record db { states = rows })
    reserving :
        (now : ℕ) (ex : Option String) (b : Binding) {r : IdempotencyRecord}
        {rows : List IdempotencyRecord} {db : Database}
        → reserve_idempotency iso now ex b db.records ≡ ok (r, rows)
        → Step db (record db { records = rows })
    completing :
        (now : ℕ) (key id outcome : String) (scope : Option String) {r : IdempotencyRecord}
        {rows : List IdempotencyRecord} {db : Database}
        → complete_idempotency now key id outcome scope db.records ≡ ok (r, rows)
        → Step db (record db { records = rows })
    cleaning :
        (terminal_before expired_before : String) (max_records removed : ℕ) {db after : Database}
        → cleanup iso scan terminal_before expired_before max_records db ≡ ok (removed, after)
        → Step db after

  pub data Reach : Database → Type 0 where
    new : Reach (record { states = []; records = [] })
    call : {db after : Database} → Reach db → Step db after → Reach after

  pub record IsSound (db : Database) : Type 0 where
    pub written : IsTable iso db.states
    pub keyed : IsKeyed state_namespace state_id db.states
    pub records : AreRecords db.records

  Step-IsSound : {db after : Database} → Step db after → IsSound db → IsSound after
  unfolding update cleanup
  Step-IsSound {db} (creating now state c h) v = record {
    written = create-IsTable iso now state db.states _ v.written c h;
    keyed = create-IsKeyed iso now state db.states _ v.keyed h;
    records = v.records;
  }
  Step-IsSound {db} (updating now id expected state version scope c h) v =
      let (ns, named, _) =
        bind_ok (namespace scope)
          (λ ns.
            update_selected iso now id expected state version ns (select_state ns id db.states)
              db.states)
          _ h in
      record {
        written =
            update-IsTable iso now id expected state version scope db.states _ v.written c
              (scope_ok-of_namespace scope ns named) h;
        keyed = update-IsKeyed iso now id expected state version scope db.states _ v.keyed h;
        records = v.records;
      }
  Step-IsSound {db} (reserving now ex b h) v = record {
    written = v.written;
    keyed = v.keyed;
    records = reserve-AreRecords iso now ex b db.records v.records h;
  }
  Step-IsSound {db} (completing now key id outcome scope h) v = record {
    written = v.written;
    keyed = v.keyed;
    records = complete-AreRecords now key id outcome scope db.records v.records h;
  }
  Step-IsSound {db} {after} (cleaning t e m n h) v =
      let (_, made) = then_ok (raise_if (ltb m 1) value_error) _ (n, after) h in
      let ended = ended_batch iso scan t m db.states in
      let expired = expired_batch iso scan e m db.records in
      subst (λ x. IsSound x.1) (ok_injective _ refl made)
        (record {
          written = All-delete_batch state_namespace state_id (IsRow iso) ended db.states v.written;
          keyed = IsKeyed-delete_batch state_namespace state_id ended db.states v.keyed;
          records = (
            IsKeyed-delete_batch record_namespace record_key expired db.records v.records.0,
            All-delete_batch record_namespace record_key (λ r. outcome_ok r ≡ true) expired
                db.records v.records.1,
          );
        })

  -- Whatever calls are made on a new database, with states that pass validation, each row of
  -- `workflow_states` is the snapshot of a constructed state in the namespace of its scope, both tables
  -- have each key once, and an idempotency record has an outcome fingerprint exactly when it is
  -- completed.
  pub Reach-IsSound : {db : Database} → Reach db → IsSound db
  Reach-IsSound new = record { written = tt; keyed = tt; records = (tt, tt) }
  Reach-IsSound (call r s) = Step-IsSound s (Reach-IsSound r)
