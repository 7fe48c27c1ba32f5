-- ===== src/Workflow/Sqlite/Refinement.antt =====
-- `update` of `SQLiteStateStore` against the contract of the state stores, on the states as snapshots
-- keep them.
use nl2data_core.Common.{
  ℕ, ◌+◌, ◌≡◌, refl, sym, ap, subst, ◌∙◌, inl, inr, Bool-cases, Bool, true, false, ◌&&◌, Option,
  none, some, List, [], ◌∷◌, String, Result, ok, err, ◌>>=◌, ◌>>◌, arith, All, str_eq, str_eq_iff,
  opt_eq, opt_eq_iff, if◌then◌else◌,
}
use nl2data_core.Workflow.Models.{WorkflowStatus, WorkflowState, scope_ok}
use nl2data_core.Workflow.Snapshot.{Iso, SerializationError, serialize_snapshot}
use nl2data_core.Workflow.Snapshot.Reading.{deserialize_snapshot}
use nl2data_core.Workflow.Snapshot.RoundTrip.{IsConstructed, canonical, read_snapshot}
use nl2data_core.Workflow.Contract.{
  Entry, ErrorClass, workflow_state_error, workflow_transition_error, serialization_error,
  value_error, check_entry, update_entry, Implements,
}
use nl2data_core.Workflow.Sqlite.{
  StateRow, SqlError, already_exists, not_found, scope_mismatch, terminal_status, status_changed,
  version_changed, malformed_snapshot, has_state_key, select_state, update_states, updated_row,
  check_row, update_selected, update,
}
use nl2data_core.Workflow.Sqlite.Keys.{
  namespace_of, namespace-ok, namespace_of-eq, select_state-update,
}

-- The class of what is raised.
abbrev pub error_class : SqlError → ErrorClass
error_class (already_exists id) = workflow_state_error
error_class (not_found id) = workflow_state_error
error_class (scope_mismatch id) = workflow_state_error
error_class (terminal_status from to) = workflow_transition_error
error_class (status_changed id s) = workflow_state_error
error_class (version_changed id v r) = workflow_state_error
error_class (malformed_snapshot id e) = serialization_error
error_class SqlError.value_error = value_error

module _ (iso : Iso) where
  -- A row that the store wrote: the snapshot of a constructed state, whose status and scope stand in
  -- their columns, in the namespace of the scope.
  pub record IsRow (r : StateRow) : Type 0 where
    pub state : WorkflowState
    pub constructed : IsConstructed state
    pub written : r.snapshot ≡ serialize_snapshot iso state
    pub same_status : r.status ≡ state.status
    pub same_scope : r.tenant_scope_fingerprint ≡ state.tenant_scope_fingerprint
    pub namespaced : r.scope_namespace ≡ namespace_of r.tenant_scope_fingerprint

  abbrev pub IsTable : List StateRow → Type 0
  IsTable rows = All IsRow rows

  pub select_state-IsRow :
      (ns id : String) (rows : List StateRow) (r : StateRow)
      → IsTable rows
      → select_state ns id rows ≡ some r
      → IsRow r
  unfolding select_state
  select_state-IsRow ns id [] r t h = cc
  select_state-IsRow ns id (x ∷ rows) r t h = elim (Bool-cases (has_state_key ns id x)) [
    | inl here ↦ subst IsRow (ground (arith, here)) t.0
    | inr there ↦ select_state-IsRow ns id rows r t.1 (rw there at h)
  ]

  abbrev entry_with : ℕ → ℕ → Result SerializationError WorkflowState → Option Entry
  entry_with revision updated_at (ok state) =
      some (record { state = state; revision = revision; updated_at = updated_at })
  entry_with revision updated_at (err e) = none

  module _ (now : ℕ) where
    -- What is read of a row, and of the row at a key.
    abbrev pub entry_of : Option StateRow → Option Entry
    entry_of none = none
    entry_of (some r) = entry_with r.revision r.updated_at (deserialize_snapshot iso now r.snapshot)

    abbrev pub entry : Option String → String → List StateRow → Option Entry
    entry scope id rows = entry_of (select_state (namespace_of scope) id rows)

    pub entry_of-written :
        (state : WorkflowState) (r : StateRow)
        → IsConstructed state
        → r.snapshot ≡ serialize_snapshot iso state
        → entry_of (some r)
          ≡ some
              (record { state = canonical state; revision = r.revision; updated_at = r.updated_at })
    entry_of-written state r c h =
        ap (entry_with r.revision r.updated_at)
          (ap (deserialize_snapshot iso now) h ∙ read_snapshot iso now state c)

  -- The tests on the row are those on the entry.
  abbrev classed : Result SqlError (Unit {0}) → Result ErrorClass (Unit {0})
  classed (ok t) = ok t
  classed (err e) = err (error_class e)

  check_row-check_entry :
      (id : String) (r : StateRow) (v : IsRow r) (expected : WorkflowStatus) (state : WorkflowState)
      (version : Option ℕ)
      → classed (check_row iso id r expected state version)
        ≡ check_entry expected
            (canonical state)
            version
            (record { state = canonical v.state; revision = r.revision; updated_at = r.updated_at })
  unfolding check_row
  check_row-check_entry id r v expected state none = rw (v.same_status, v.same_scope) (ground arith)
  check_row-check_entry id r v expected state (some n) =
      rw (v.same_status, v.same_scope) (ground arith)

  replaced :
      (now : ℕ) (state : WorkflowState) (r : StateRow) (b : Bool) (o : Option StateRow)
      → IsConstructed state
      → (b ≡ true → o ≡ some r)
      → entry_of now
          (elim o [ none ↦ none | some x ↦ some (if b then updated_row iso now state x else x) ])
        ≡ (if b
            then some
                (record { state = canonical state; revision = r.revision + 1; updated_at = now })
            else entry_of now o)
  replaced now state r true none c h = cc (h refl)
  replaced now state r true (some x) c h =
      let same : (x ≡ r) = cc (h refl) in
      subst
        (λ y.
          entry_of now (some (updated_row iso now state y))
          ≡ some (record { state = canonical state; revision = r.revision + 1; updated_at = now }))
        (sym same) (entry_of-written now state (updated_row iso now state r) c refl)
  replaced now state r false none c h = refl
  replaced now state r false (some x) c h = refl

  -- The row at one key is replaced; no other entry changes.
  entry-update_states :
      (now : ℕ) (id : String) (state : WorkflowState) (scope : Option String) (rows : List StateRow)
      (r : StateRow)
      → IsConstructed state
      → select_state (namespace_of scope) id rows ≡ some r
      → (other : Option String) (j : String)
      → entry now other j (update_states (namespace_of scope) id (updated_row iso now state) rows)
        ≡ (if opt_eq other scope && str_eq j id
            then some
                (record { state = canonical state; revision = r.revision + 1; updated_at = now })
            else entry now other j rows)
  entry-update_states now id state scope rows r c found other j =
      ap (entry_of now) (
        select_state-update (namespace_of scope) id (namespace_of other) j
          (updated_row iso now state) rows (λ x. refl) (λ x. refl)
        ∙ ap
            (λ b. elim (select_state (namespace_of other) j rows) [
              | none ↦ none
              | some x ↦ some (if b && str_eq j id then updated_row iso now state x else x)
            ])
            (namespace_of-eq other scope))
      ∙ replaced now state r (opt_eq other scope && str_eq j id)
          (select_state (namespace_of other) j rows) c (at_key scope id rows r found other j)
    where
      at_key :
          (scope : Option String) (id : String) (rows : List StateRow) (r : StateRow)
          → select_state (namespace_of scope) id rows ≡ some r
          → (other : Option String) (j : String) → (opt_eq other scope && str_eq j id) ≡ true
          → select_state (namespace_of other) j rows ≡ some r
      at_key scope id rows r found other j same =
          ap (λ o. select_state (namespace_of o) j rows)
            ((opt_eq_iff other scope).0 (ground (arith, same)))
          ∙ ap (λ i. select_state (namespace_of scope) i rows)
              ((str_eq_iff j id).0 (ground (arith, same)))
          ∙ found

  -- The tests decide for both.
  decided :
      (now : ℕ) (id : String) (scope : Option String) (rows after : List StateRow) (new : Entry)
      (m : Result SqlError (Unit {0})) (n : Result ErrorClass (Unit {0}))
      → classed m ≡ n
      → Implements (entry now) error_class scope id rows (ok after) (ok new)
      → Implements (entry now) error_class scope id rows (m >> ok after) (n >> ok new)
  decided now id scope rows after new (ok _) n same base =
      subst (λ x. Implements (entry now) error_class scope id rows (ok after) (x >> ok new)) same
        base
  decided now id scope rows after new (err e) n same base =
      subst (λ x. Implements (entry now) error_class scope id rows (err e) (x >> ok new)) same refl

  update_selected-Implements :
      (now : ℕ) (id : String) (expected : WorkflowStatus) (state : WorkflowState)
      (version : Option ℕ) (scope : Option String) (rows : List StateRow) (o : Option StateRow)
      → IsTable rows
      → IsConstructed state
      → select_state (namespace_of scope) id rows ≡ o
      → Implements
          (entry now)
          error_class
          scope
          id
          rows
          (update_selected iso now id expected state version (namespace_of scope) o rows)
          (update_entry now expected (canonical state) version (entry_of now o))
  unfolding update_selected update_entry
  update_selected-Implements now id expected state version scope rows none t c found = refl
  update_selected-Implements now id expected state version scope rows (some r) t c found =
      let v = select_state-IsRow (namespace_of scope) id rows r t found in
      subst
        (λ e.
          Implements (entry now) error_class scope id rows
            (update_selected iso now id expected state version (namespace_of scope) (some r) rows)
            (update_entry now expected (canonical state) version e))
        (sym (entry_of-written now v.state r v.constructed v.written))
        (decided now id scope rows
          (update_states (namespace_of scope) id (updated_row iso now state) rows)
          (record { state = canonical state; revision = r.revision + 1; updated_at = now })
          (check_row iso id r expected state version) _
          (check_row-check_entry id r v expected state version)
          (entry-update_states now id state scope rows r c found))

  -- On a table that the store wrote, in a scope that is a fingerprint or none, `update` does to the
  -- entry of the workflow what the contract says, raises an exception of the class that it says, and
  -- changes no other entry. The new entry has the state as its snapshot is read back.
  pub update-Implements :
      (now : ℕ) (id : String) (expected : WorkflowStatus) (state : WorkflowState)
      (version : Option ℕ) (scope : Option String) (rows : List StateRow)
      → IsTable rows
      → IsConstructed state
      → scope_ok scope ≡ true
      → Implements
          (entry now)
          error_class
          scope
          id
          rows
          (update iso now id expected state version scope rows)
          (update_entry now expected (canonical state) version (entry now scope id rows))
  unfolding update
  update-Implements now id expected state version scope rows t c k =
      subst
        (λ m.
          Implements (entry now) error_class scope id rows
            (m >>= λ ns.
              update_selected iso now id expected state version ns (select_state ns id rows) rows)
            (update_entry now expected (canonical state) version (entry now scope id rows)))
        (sym (namespace-ok scope k))
        (update_selected-Implements now id expected state version scope rows
          (select_state (namespace_of scope) id rows) t c refl)
