-- ===== src/Workflow/Sqlite/Table.antt =====
-- The writes of `SQLiteStateStore` and the tables that the store wrote.
use nl2data_core.Common.{
  ℕ, ◌≡◌, refl, sym, ap, subst, ◌∙◌, inl, inr, Bool-cases, true, Option, none, some, List, [], ◌∷◌,
  String, ok, ◌>>=◌, arith, All-append, str_eq_iff, opt_eq_iff,
}
use nl2data_core.Workflow.Models.{WorkflowStatus, WorkflowState, scope_ok}
use nl2data_core.Workflow.Snapshot.{Iso}
use nl2data_core.Workflow.Snapshot.RoundTrip.{IsConstructed}
use nl2data_core.Workflow.Sqlite.{
  StateRow, has_state_key, select_state, insert_state, update_states, new_row, create, updated_row,
  check_row, update_selected, update,
}
use nl2data_core.Workflow.Sqlite.Keys.{
  namespace_of, namespace-ok, namespace_of-injective, select_state-key,
}
use nl2data_core.Workflow.Sqlite.Refinement.{IsRow, IsTable, select_state-IsRow}
use nl2data_core.Workflow.Sqlite.Creation.{scope_ok-of_state}

module _ (iso : Iso) where
  update_states-IsTable :
      (ns id : String) (f : StateRow → StateRow) (rows : List StateRow)
      → ((x : StateRow) → IsRow iso x → has_state_key ns id x ≡ true → IsRow iso (f x))
      → IsTable iso rows
      → IsTable iso (update_states ns id f rows)
  unfolding update_states
  update_states-IsTable ns id f [] h t = tt
  update_states-IsTable ns id f (x ∷ rows) h t = elim (Bool-cases (has_state_key ns id x)) [
    | inl here ↦ (rw here (h x t.0 here), update_states-IsTable ns id f rows h t.1)
    | inr there ↦ (rw there t.0, update_states-IsTable ns id f rows h t.1)
  ]

  pub create-IsTable :
      (now : ℕ) (state : WorkflowState) (rows after : List StateRow)
      → IsTable iso rows
      → IsConstructed state
      → create iso now state rows ≡ ok after
      → IsTable iso after
  unfolding create insert_state
  create-IsTable now state rows after t c h =
      let ns = namespace_of state.tenant_scope_fingerprint in
      let inserted : (insert_state (new_row iso now state ns) rows ≡ ok after) =
        sym (
          ap (λ m. m >>= λ k. insert_state (new_row iso now state k) rows)
            (namespace-ok state.tenant_scope_fingerprint (scope_ok-of_state state c.state)))
        ∙ h in
      subst (IsTable iso) (ground (arith, inserted)) (
        All-append (IsRow iso) rows (new_row iso now state ns ∷ []) t (
          record {
            state = state;
            constructed = c;
            written = refl;
            same_status = refl;
            same_scope = refl;
            namespaced = refl;
          },
          tt,
        ))

  check_row-scope :
      (id : String) (r : StateRow) (expected : WorkflowStatus) (state : WorkflowState)
      (version : Option ℕ)
      → check_row iso id r expected state version ≡ ok tt
      → r.tenant_scope_fingerprint ≡ state.tenant_scope_fingerprint
  unfolding check_row
  check_row-scope id r expected state version h =
      (opt_eq_iff r.tenant_scope_fingerprint state.tenant_scope_fingerprint).0 (ground (arith, h))

  update_selected-IsTable :
      (now : ℕ) (id : String) (expected : WorkflowStatus) (state : WorkflowState)
      (version : Option ℕ) (scope : Option String) (o : Option StateRow)
      (rows after : List StateRow)
      → IsTable iso rows
      → IsConstructed state
      → select_state (namespace_of scope) id rows ≡ o
      → update_selected iso now id expected state version (namespace_of scope) o rows ≡ ok after
      → IsTable iso after
  unfolding update_selected
  update_selected-IsTable now id expected state version scope none rows after t c found h = cc
  update_selected-IsTable now id expected state version scope (some r) rows after t c found h =
      let ns = namespace_of scope in
      let v = select_state-IsRow iso ns id rows r t found in
      let checked : (check_row iso id r expected state version ≡ ok tt) = ground (arith, h) in
      let made : (update_states ns id (updated_row iso now state) rows ≡ after) =
        ground (arith, h) in
      let scoped : (r.tenant_scope_fingerprint ≡ scope) =
        namespace_of-injective r.tenant_scope_fingerprint scope
          (sym v.namespaced ∙ (select_state-key ns id rows r found).0) in
      let same : (scope ≡ state.tenant_scope_fingerprint) =
        sym scoped ∙ check_row-scope id r expected state version checked in
      subst (IsTable iso) made (
        update_states-IsTable ns id (updated_row iso now state) rows
          (λ x w k. record {
            state = state;
            constructed = c;
            written = refl;
            same_status = refl;
            same_scope = refl;
            namespaced =
                (str_eq_iff x.scope_namespace ns).0 (ground (arith, k)) ∙ ap namespace_of same;
          })
          t)

  pub update-IsTable :
      (now : ℕ) (id : String) (expected : WorkflowStatus) (state : WorkflowState)
      (version : Option ℕ) (scope : Option String) (rows after : List StateRow)
      → IsTable iso rows
      → IsConstructed state
      → scope_ok scope ≡ true
      → update iso now id expected state version scope rows ≡ ok after
      → IsTable iso after
  unfolding update
  update-IsTable now id expected state version scope rows after t c k h =
      update_selected-IsTable now id expected state version scope
        (select_state (namespace_of scope) id rows) rows after t c refl
        (sym (
            ap
              (λ m. m >>= λ ns.
                update_selected iso now id expected state version ns (select_state ns id rows) rows)
              (namespace-ok scope k))
          ∙ h)
