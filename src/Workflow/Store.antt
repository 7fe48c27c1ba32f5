-- ===== src/Workflow/Store.antt =====
-- workflow/store.py: `InMemoryStateStore`. Each method runs under the lock, so it is one step on the
-- three dictionaries; it returns the new store, or raises and leaves the store as it was. The clock
-- is the argument `now`.
pub mod Valid
pub mod Access
pub mod Cleanup
pub mod Reach
pub mod Refinement
use nl2data_core.Common.{
  ℕ, suc, ◌+◌, Bool, true, false, ◌&&◌, ◌||◌, not, Option, none, some, List, [], ◌∷◌, String,
  Result, ok, err, ◌>>=◌, ◌>>◌, raise_if, if◌then◌else◌, ltb, leb, ◌==◌, str_eq, opt_eq, is_some,
  length, take,
}
use nl2data_core.Common.Dict.{Dict, lookup, has_key, insert, erase}
use nl2data_core.Common.Sort.{sorted}
use nl2data_core.Workflow.Models.{WorkflowStatus, WorkflowState, is_terminal, status_eq}

pub record Store : Type 0 where
  pub states : Dict WorkflowState
  pub revisions : Dict ℕ
  pub updated_at : Dict ℕ

-- `InMemoryStateStore()`.
abbrev pub empty : Store
empty = record { states = []; revisions = []; updated_at = [] }

-- What the methods raise. `key_error` is Python's own, from `d[k]` or `del d[k]`.
pub data StoreError : Type 0 where
  already_exists not_found scope_mismatch state_scope_mismatch : String → StoreError
  terminal_status : WorkflowStatus → WorkflowStatus → StoreError
  status_changed : String → WorkflowStatus → StoreError
  version_changed : String → ℕ → ℕ → StoreError
  value_error : StoreError
  key_error : String → StoreError

-- `d[k]`.
abbrev pub subscript {ℓ} : {V : Type ℓ} → String → Dict V → Result StoreError V
subscript k d = elim (lookup k d) [ none ↦ err (key_error k) | some v ↦ ok v ]

-- `del d[k]`.
abbrev pub delete {ℓ} : {V : Type ℓ} → String → Dict V → Result StoreError (Dict V)
delete k d = if has_key k d then ok (erase k d) else err (key_error k)

unfoldable pub create : ℕ → WorkflowState → Store → Result StoreError Store
create now state s = do
  raise_if (has_key state.workflow_id s.states) (already_exists state.workflow_id)
  ok (record {
    states = insert state.workflow_id state s.states;
    revisions = insert state.workflow_id 1 s.revisions;
    updated_at = insert state.workflow_id now s.updated_at;
  })

-- `_states.get(workflow_id)`, hidden from every other scope.
abbrev visible : Option WorkflowState → Option String → Option WorkflowState
visible none scope = none
visible (some state) scope =
    if opt_eq state.tenant_scope_fingerprint scope then some state else none

unfoldable pub get : String → Option String → Store → Option WorkflowState
get workflow_id scope s = visible (lookup workflow_id s.states) scope

unfoldable pub get_revision : String → Option String → Store → Result StoreError (Option ℕ)
get_revision workflow_id scope s = elim (visible (lookup workflow_id s.states) scope) [
  | none ↦ ok none
  | some state ↦ subscript workflow_id s.revisions >>= λ revision. ok (some revision)
]

bound_to : Option WorkflowState → String → Option WorkflowState
bound_to none request_id = none
bound_to (some state) request_id = if str_eq state.request_id request_id then some state else none

unfoldable pub get_checkpoint : String → String → Option String → Store → Option WorkflowState
unfolding bound_to
get_checkpoint workflow_id request_id scope s =
    visible (bound_to (lookup workflow_id s.states) request_id) scope

-- The tests of `update` before the version is looked at.
pub check_current :
    String
    → WorkflowState
    → WorkflowStatus
    → WorkflowState
    → Option String
    → Result StoreError (Unit {0})
check_current workflow_id current expected_status state scope = do
  raise_if (not (opt_eq current.tenant_scope_fingerprint scope)) (scope_mismatch workflow_id)
  raise_if (not (opt_eq current.tenant_scope_fingerprint state.tenant_scope_fingerprint))
      (state_scope_mismatch workflow_id)
  raise_if (is_terminal current.status && not (status_eq state.status current.status))
      (terminal_status current.status state.status)
  raise_if (not (status_eq current.status expected_status))
      (status_changed workflow_id expected_status)

-- `if expected_version is not None and self._revisions[workflow_id] != expected_version`.
pub check_version : String → Option ℕ → Store → Result StoreError (Unit {0})
check_version workflow_id none s = ok tt
check_version workflow_id (some version) s = do
  actual ← subscript workflow_id s.revisions
  raise_if (not (actual == version)) (version_changed workflow_id version actual)

pub write : ℕ → String → WorkflowState → Store → Result StoreError Store
write now workflow_id state s = do
  revision ← subscript workflow_id s.revisions
  ok (record {
    states = insert workflow_id state s.states;
    revisions = insert workflow_id (revision + 1) s.revisions;
    updated_at = insert workflow_id now s.updated_at;
  })

unfoldable pub update :
    ℕ
    → String
    → WorkflowStatus
    → WorkflowState
    → Option ℕ
    → Option String
    → Store
    → Result StoreError Store
update now workflow_id expected_status state expected_version scope s =
    elim (lookup workflow_id s.states) [
      | none ↦ err (not_found workflow_id)
      | some current ↦
          (check_current workflow_id current expected_status state scope
            >> (check_version workflow_id expected_version s >> write now workflow_id state s))
    ]

ids_in_scope : Option String → Dict WorkflowState → List String
ids_in_scope scope [] = []
ids_in_scope scope ((workflow_id, state) ∷ d) =
    if opt_eq state.tenant_scope_fingerprint scope
    then workflow_id ∷ ids_in_scope scope d
    else ids_in_scope scope d

unfoldable pub list_ids : Option String → Store → List String
unfolding ids_in_scope
list_ids scope s = sorted (ids_in_scope scope s.states)

-- The generator of `cleanup`; `_updated_at[workflow_id]` is read only of a terminal state.
removable_ids : ℕ → Dict ℕ → Dict WorkflowState → Result StoreError (List String)
removable_ids terminal_before updated_at [] = ok []
removable_ids terminal_before updated_at ((workflow_id, state) ∷ d) =
    let rest = removable_ids terminal_before updated_at d in
    if is_terminal state.status
    then (subscript workflow_id updated_at >>= λ at.
        rest >>= λ ids. ok (if leb at terminal_before then workflow_id ∷ ids else ids))
    else rest

delete_one : String → Store → Result StoreError Store
delete_one workflow_id s = do
  states ← delete workflow_id s.states
  revisions ← delete workflow_id s.revisions
  updated_at ← delete workflow_id s.updated_at
  ok (record { states = states; revisions = revisions; updated_at = updated_at })

delete_all : List String → Store → Result StoreError Store
unfolding delete_one
delete_all [] s = ok s
delete_all (workflow_id ∷ ids) s = delete_one workflow_id s >>= delete_all ids

-- The number removed, and the store that is left. `expired_before` is not read.
unfoldable pub cleanup : ℕ → ℕ → ℕ → Store → Result StoreError (ℕ × Store)
unfolding removable_ids delete_all
cleanup terminal_before expired_before max_records s = do
  raise_if (ltb max_records 1) value_error
  removable ← removable_ids terminal_before s.updated_at s.states
  let removed = take max_records (sorted removable)
  left ← delete_all removed s
  ok (length removed, left)
