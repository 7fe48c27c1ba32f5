-- ===== src/Workflow/Sqlite/Reach/States.antt =====
-- `create` and `update` of `SQLiteStateStore` and the primary key of `workflow_states`.
use nl2data_core.Common.{
  then_ok, bind_ok, ok_injective, ℕ, ◌≡◌, refl, sym, ◌∙◌, true, Option, none, some, List, [], ◌∷◌,
  String, ok, raise_if, arith, is_some, subst,
}
use nl2data_core.Workflow.Models.{WorkflowStatus, WorkflowState, scope_ok}
use nl2data_core.Workflow.Snapshot.{Iso}
use nl2data_core.Workflow.Sqlite.{
  StateRow, namespace, select_state, insert_state, update_states, new_row, create, updated_row,
  check_row, update_selected, update,
}
use nl2data_core.Workflow.Sqlite.Batches.{delete, delete_batch, find, IsKeyed}
use nl2data_core.Workflow.Sqlite.Batches as Batches
use nl2data_core.Workflow.Sqlite.Batches.Keyed.{IsKeyed-append, IsKeyed-update}
use nl2data_core.Workflow.Sqlite.Cleanup.{state_namespace, state_id, select_state-find}

-- The statements of the methods as those on any table.
update_states-update :
    (ns id : String) (f : StateRow → StateRow) (rows : List StateRow)
    → update_states ns id f rows ≡ Batches.update state_namespace state_id ns id f rows
unfolding update_states Batches.update
update_states-update ns id f [] = refl
update_states-update ns id f (r ∷ rows) = rw (update_states-update ns id f rows) refl

pub create-IsKeyed :
    (iso : Iso) (now : ℕ) (state : WorkflowState) (rows after : List StateRow)
    → IsKeyed state_namespace state_id rows
    → create iso now state rows ≡ ok after
    → IsKeyed state_namespace state_id after
unfolding create insert_state
create-IsKeyed iso now state rows after u h =
    let (ns, _, inserted) =
      bind_ok (namespace state.tenant_scope_fingerprint)
        (λ ns. insert_state (new_row iso now state ns) rows) after h in
    let (free, made) =
      then_ok (raise_if (is_some (select_state ns state.workflow_id rows)) _) _ after inserted in
    subst (IsKeyed state_namespace state_id) (ok_injective _ refl made) (
      IsKeyed-append state_namespace state_id rows (new_row iso now state ns) u
        (sym (select_state-find ns state.workflow_id rows) ∙ ground (arith, free)))

pub update-IsKeyed :
    (iso : Iso) (now : ℕ) (id : String) (expected : WorkflowStatus) (state : WorkflowState)
    (version : Option ℕ) (scope : Option String) (rows after : List StateRow)
    → IsKeyed state_namespace state_id rows
    → update iso now id expected state version scope rows ≡ ok after
    → IsKeyed state_namespace state_id after
unfolding update update_selected
update-IsKeyed iso now id expected state version scope rows after u h =
    let (ns, _, done) =
      bind_ok (namespace scope)
        (λ ns. update_selected iso now id expected state version ns (select_state ns id rows) rows)
        after h in
    written ns (select_state ns id rows) done
  where
    written :
        (ns : String) (o : Option StateRow)
        → update_selected iso now id expected state version ns o rows ≡ ok after
        → IsKeyed state_namespace state_id after
    written ns none d = cc
    written ns (some r) d =
        let (_, made) = then_ok (check_row iso id r expected state version) _ after d in
        subst (IsKeyed state_namespace state_id)
          (sym (update_states-update ns id (updated_row iso now state) rows)
            ∙ ok_injective _ refl made)
          (IsKeyed-update state_namespace state_id (updated_row iso now state) (λ x. refl)
            (λ x. refl) ns id rows u)

pub scope_ok-of_namespace :
    (scope : Option String) (ns : String) → namespace scope ≡ ok ns → scope_ok scope ≡ true
unfolding scope_ok
scope_ok-of_namespace none ns h = refl
scope_ok-of_namespace (some fingerprint) ns h = ground (arith, h)
