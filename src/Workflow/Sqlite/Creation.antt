-- ===== src/Workflow/Sqlite/Creation.antt =====
-- `create` and `get` of `SQLiteStateStore` against the contract of the state stores.
use nl2data_core.Common.{
  ℕ, ◌≡◌, refl, sym, ap, subst, ◌∙◌, inl, inr, Bool-cases, Bool, true, false, ◌&&◌, Option, none,
  some, List, [], ◌∷◌, ◌++◌, String, ok, err, ◌>>=◌, ◌>>◌, raise_if, arith, str_eq, str_eq_iff,
  opt_eq, opt_eq_iff, if◌then◌else◌, is_some,
}
use nl2data_core.Workflow.Models.{WorkflowState, scope_ok, state_ok, identity_ok}
use nl2data_core.Workflow.Snapshot.{Iso}
use nl2data_core.Workflow.Snapshot.Reading.{deserialize_snapshot}
use nl2data_core.Workflow.Snapshot.RoundTrip.{IsConstructed, canonical, read_snapshot}
use nl2data_core.Workflow.Contract.{Entry, create_entry, Implements}
use nl2data_core.Workflow.Sqlite.{
  StateRow, already_exists, malformed_snapshot, select_state, insert_state, new_row, create,
  read_row, get,
}
use nl2data_core.Workflow.Sqlite.Keys.{
  namespace_of, namespace-ok, namespace_of-eq, select_state-append,
}
use nl2data_core.Workflow.Sqlite.Refinement.{
  error_class, IsRow, IsTable, select_state-IsRow, entry_of, entry, entry_of-written,
}

pub scope_ok-of_state :
    (s : WorkflowState) → state_ok s ≡ true → scope_ok s.tenant_scope_fingerprint ≡ true
unfolding state_ok identity_ok
scope_ok-of_state s h = ground arith

-- The key of a new row, against another key.
new_key :
    (scope other : Option String) (id j : String)
    → (str_eq (namespace_of scope) (namespace_of other) && str_eq id j)
      ≡ (opt_eq other scope && str_eq j id)
new_key scope other id j = elim (Bool-cases (opt_eq other scope && str_eq j id)) [
  | inl same ↦
      let a : (other ≡ scope) = (opt_eq_iff other scope).0 (ground (arith, same)) in
      let b : (j ≡ id) = (str_eq_iff j id).0 (ground (arith, same)) in
      rw
        (
          a,
          b,
          (str_eq_iff (namespace_of scope) (namespace_of scope)).1 refl,
          (str_eq_iff id id).1 refl,
          (opt_eq_iff scope scope).1 refl,
        )
        refl
  | inr apart ↦
      elim (Bool-cases (str_eq (namespace_of scope) (namespace_of other) && str_eq id j)) [
        | inr other_key ↦ other_key ∙ sym apart
        | inl key ↦
            let a : (scope ≡ other) =
              (opt_eq_iff scope other).0
                (sym (namespace_of-eq scope other) ∙ ground (arith, key)) in
            let b : (id ≡ j) = (str_eq_iff id j).0 (ground (arith, key)) in
            let same : (opt_eq other scope && str_eq j id) ≡ true =
              rw (a, b, (str_eq_iff j j).1 refl, (opt_eq_iff other other).1 refl) refl in
            cc same
      ]
]

module _ (iso : Iso) where
  inserted :
      (now : ℕ) (state : WorkflowState) (b : Bool) (o : Option StateRow)
      → IsConstructed state
      → (b ≡ true → o ≡ none)
      → entry_of iso now (elim o [
        | some x ↦ some x
        | none ↦
            if b
            then some (new_row iso now state (namespace_of state.tenant_scope_fingerprint))
            else none
      ])
        ≡ (if b
            then some (record { state = canonical state; revision = 1; updated_at = now })
            else entry_of iso now o)
  inserted now state true none c h =
      entry_of-written iso now state
        (new_row iso now state (namespace_of state.tenant_scope_fingerprint)) c refl
  inserted now state true (some x) c h = cc (h refl)
  inserted now state false none c h = refl
  inserted now state false (some x) c h = refl

  entry-insert :
      (now : ℕ) (state : WorkflowState) (rows : List StateRow)
      → IsConstructed state
      → select_state (namespace_of state.tenant_scope_fingerprint) state.workflow_id rows ≡ none
      → (other : Option String) (j : String)
      → entry iso now other j
          (rows ++ new_row iso now state (namespace_of state.tenant_scope_fingerprint) ∷ [])
        ≡ (if opt_eq other state.tenant_scope_fingerprint && str_eq j state.workflow_id
            then some (record { state = canonical state; revision = 1; updated_at = now })
            else entry iso now other j rows)
  entry-insert now state rows c free other j =
      ap (entry_of iso now) (
        select_state-append (namespace_of other) j rows
          (new_row iso now state (namespace_of state.tenant_scope_fingerprint))
        ∙ ap
            (λ b. elim (select_state (namespace_of other) j rows) [
              | some x ↦ some x
              | none ↦
                  if b
                  then some (new_row iso now state (namespace_of state.tenant_scope_fingerprint))
                  else none
            ])
            (new_key state.tenant_scope_fingerprint other state.workflow_id j))
      ∙ inserted now state
          (opt_eq other state.tenant_scope_fingerprint && str_eq j state.workflow_id)
          (select_state (namespace_of other) j rows) c
          (λ same.
            ap (λ o. select_state (namespace_of o) j rows)
              ((opt_eq_iff other state.tenant_scope_fingerprint).0 (ground (arith, same)))
            ∙ ap (λ i. select_state (namespace_of state.tenant_scope_fingerprint) i rows)
                ((str_eq_iff j state.workflow_id).0 (ground (arith, same)))
            ∙ free)

  insert_state-Implements :
      (now : ℕ) (state : WorkflowState) (rows : List StateRow) (o : Option StateRow)
      → IsTable iso rows
      → IsConstructed state
      → select_state (namespace_of state.tenant_scope_fingerprint) state.workflow_id rows ≡ o
      → Implements
          (entry iso now)
          error_class
          state.tenant_scope_fingerprint
          state.workflow_id
          rows
          (raise_if (is_some o) (already_exists state.workflow_id)
            >> ok
                (rows ++ new_row iso now state (namespace_of state.tenant_scope_fingerprint) ∷ []))
          (create_entry now (canonical state) (entry_of iso now o))
  unfolding create_entry
  insert_state-Implements now state rows none t c free = entry-insert now state rows c free
  insert_state-Implements now state rows (some r) t c taken =
      let v =
        select_state-IsRow iso (namespace_of state.tenant_scope_fingerprint) state.workflow_id rows
          r t taken in
      subst
        (λ e.
          Implements (entry iso now) error_class state.tenant_scope_fingerprint state.workflow_id
            rows (err (already_exists state.workflow_id)) (create_entry now (canonical state) e))
        (sym (entry_of-written iso now v.state r v.constructed v.written)) refl

  -- On a table that the store wrote, `create` of a constructed state does to the entry of the workflow
  -- what the contract says, and changes no other entry.
  pub create-Implements :
      (now : ℕ) (state : WorkflowState) (rows : List StateRow)
      → IsTable iso rows
      → IsConstructed state
      → Implements
          (entry iso now)
          error_class
          state.tenant_scope_fingerprint
          state.workflow_id
          rows
          (create iso now state rows)
          (create_entry now
            (canonical state)
            (entry iso now state.tenant_scope_fingerprint state.workflow_id rows))
  unfolding create insert_state
  create-Implements now state rows t c =
      subst
        (λ m.
          Implements (entry iso now) error_class state.tenant_scope_fingerprint state.workflow_id
            rows (m >>= λ ns. insert_state (new_row iso now state ns) rows)
            (create_entry now (canonical state)
              (entry iso now state.tenant_scope_fingerprint state.workflow_id rows)))
        (sym (namespace-ok state.tenant_scope_fingerprint (scope_ok-of_state state c.state)))
        (insert_state-Implements now state rows
          (select_state (namespace_of state.tenant_scope_fingerprint) state.workflow_id rows) t c
          refl)

  -- `get` returns the state of the entry.
  abbrev pub state_of : Option Entry → Option WorkflowState
  state_of none = none
  state_of (some e) = some e.state

  read_row-entry :
      (now : ℕ) (id : String) (o : Option StateRow)
      → ((r : StateRow) → o ≡ some r → IsRow iso r)
      → read_row iso now id o ≡ ok (state_of (entry_of iso now o))
  unfolding read_row
  read_row-entry now id none h = refl
  read_row-entry now id (some r) h =
      let v = h r refl in
      let read : (deserialize_snapshot iso now r.snapshot ≡ ok (canonical v.state)) =
        ap (deserialize_snapshot iso now) v.written ∙ read_snapshot iso now v.state v.constructed in
      ap (λ x. elim x [ ok state ↦ ok (some state) | err e ↦ err (malformed_snapshot id e) ]) read
      ∙ sym (ap (λ e. ok (state_of e)) (entry_of-written iso now v.state r v.constructed v.written))

  pub get-entry :
      (now : ℕ) (id : String) (scope : Option String) (rows : List StateRow)
      → IsTable iso rows
      → scope_ok scope ≡ true
      → get iso now id scope rows ≡ ok (state_of (entry iso now scope id rows))
  unfolding get
  get-entry now id scope rows t k =
      ap (λ m. m >>= λ ns. read_row iso now id (select_state ns id rows)) (namespace-ok scope k)
      ∙ read_row-entry now id (select_state (namespace_of scope) id rows)
          (λ r h. select_state-IsRow iso (namespace_of scope) id rows r t h)
