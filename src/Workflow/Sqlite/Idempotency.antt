-- ===== src/Workflow/Sqlite/Idempotency.antt =====
-- workflow/sqlite_store.py: the `idempotency_records` table. Reservation binds a key to a request, a
-- workflow and a scope; completion stores the outcome's fingerprint.
pub mod Once
pub mod Completion
use nl2data_core.Common.{
  ℕ, ◌+◌, Bool, true, false, ◌&&◌, ◌||◌, not, Option, none, some, List, [], ◌∷◌, ◌++◌, String,
  Result, ok, err, ◌>>=◌, ◌>>◌, raise_if, if◌then◌else◌, leb, ltb, ◌==◌, all, length, str_eq,
  opt_eq, is_some,
}
use nl2data_core.Common.Text.{codes, is_alnum, is_key_char, is_identifier, is_fingerprint}
use nl2data_core.Common.Sort.{str_leb}
use nl2data_core.Workflow.Snapshot.{Iso}
use nl2data_core.Workflow.Sqlite.{namespace, SqlError}

pub data IdempotencyStatus : Type 0 where
  reserved completed : IdempotencyStatus

-- A row of the table, and the `IdempotencyRecord` that is made of it. The caller gives `expires_at`, in
-- any zone, so that it is kept as its text; the readings of the clock are instants, written in UTC.
pub record IdempotencyRecord : Type 0 where
  pub idempotency_key : String
  pub request_id : String
  pub tenant_scope_fingerprint : Option String
  pub scope_namespace : String
  pub workflow_id : String
  pub status : IdempotencyStatus
  pub terminal_outcome_fingerprint : Option String
  pub created_at : ℕ
  pub updated_at : ℕ
  pub expires_at : Option String

-- `IdempotencyConflictError`s, and `WorkflowStateError`s.
pub data IdempotencyError : Type 0 where
  other_request other_scope other_workflow already_completed : String → IdempotencyError
  unsafe_identity not_found unsafe_outcome : String → IdempotencyError
  bad_scope : IdempotencyError

-- `_KEY_PATTERN`: `^[A-Za-z0-9][A-Za-z0-9_.:-]{0,127}$`
unfoldable pub is_key : String → Bool
is_key key = elim (codes key) [
  | [] ↦ false
  | c ∷ cs ↦ is_alnum c && all is_key_char cs && leb (length cs) 127
]

-- `if scope is not None and ...`
abbrev pub scope_safe : Option String → Bool
scope_safe none = true
scope_safe (some fingerprint) = is_fingerprint fingerprint

-- `_validate_identity`
unfoldable pub validate_identity :
    String → Option String → Option String → Option String → Result IdempotencyError (Unit {0})
unfolding is_key
validate_identity key request_id workflow_id scope =
    raise_if (not (is_key key)) (unsafe_identity key)
    >> (raise_if (not (optional_ok request_id)) (unsafe_identity key)
        >> (raise_if (not (optional_ok workflow_id)) (unsafe_identity key)
            >> raise_if (not (scope_safe scope)) bad_scope))
  where
    optional_ok : Option String → Bool
    optional_ok none = true
    optional_ok (some id) = is_identifier id

-- `_namespace` of a scope that was validated.
abbrev pub scope_name : Option String → Result IdempotencyError String
scope_name scope = elim (namespace scope) [ ok ns ↦ ok ns | err e ↦ err bad_scope ]

-- `WHERE scope_namespace = ? AND idempotency_key = ?`
abbrev pub has_key_of : String → String → IdempotencyRecord → Bool
has_key_of ns key r = str_eq r.scope_namespace ns && str_eq r.idempotency_key key

unfoldable pub select_record : String → String → List IdempotencyRecord → Option IdempotencyRecord
select_record ns key [] = none
select_record ns key (r ∷ rows) = if has_key_of ns key r then some r else select_record ns key rows

unfoldable pub delete_records : String → String → List IdempotencyRecord → List IdempotencyRecord
delete_records ns key [] = []
delete_records ns key (r ∷ rows) =
    let rest = delete_records ns key rows in if has_key_of ns key r then rest else r ∷ rest

unfoldable pub update_records :
    String
    → String
    → (IdempotencyRecord → IdempotencyRecord)
    → List IdempotencyRecord
    → List IdempotencyRecord
update_records ns key f [] = []
update_records ns key f (r ∷ rows) =
    (if has_key_of ns key r then f r else r) ∷ update_records ns key f rows

-- `stored_expiry is not None and stored_expiry <= bound`, a comparison of texts.
abbrev pub is_expired : String → IdempotencyRecord → Bool
is_expired bound r = elim r.expires_at [ none ↦ false | some at ↦ str_leb at bound ]

-- The bindings of a reservation.
pub record Binding : Type 0 where
  pub key : String
  pub request_id : String
  pub workflow_id : String
  pub scope : Option String

abbrev pub new_record : ℕ → Option String → String → Binding → IdempotencyRecord
new_record now expires_at ns b = record {
  idempotency_key = b.key;
  request_id = b.request_id;
  tenant_scope_fingerprint = b.scope;
  scope_namespace = ns;
  workflow_id = b.workflow_id;
  status = reserved;
  terminal_outcome_fingerprint = none;
  created_at = now;
  updated_at = now;
  expires_at = expires_at;
}

-- The tests on a record that is still valid.
unfoldable pub check_binding : Binding → IdempotencyRecord → Result IdempotencyError (Unit {0})
check_binding b r =
    raise_if (not (str_eq r.request_id b.request_id)) (other_request b.key)
    >> (raise_if (not (opt_eq r.tenant_scope_fingerprint b.scope)) (other_scope b.key)
        >> raise_if (not (str_eq r.workflow_id b.workflow_id)) (other_workflow b.key))

-- `reserve_idempotency`, once the row was selected.
unfoldable pub reserve_selected :
    Iso
    → ℕ
    → Option String
    → String
    → Binding
    → Option IdempotencyRecord
    → List IdempotencyRecord
    → Result IdempotencyError (IdempotencyRecord × List IdempotencyRecord)
unfolding check_binding delete_records
reserve_selected iso now expires_at ns b none rows =
    ok (new_record now expires_at ns b, rows ++ new_record now expires_at ns b ∷ [])
reserve_selected iso now expires_at ns b (some r) rows =
    if is_expired (iso.isoformat now) r
    then ok (
      new_record now expires_at ns b,
      delete_records ns b.key rows ++ new_record now expires_at ns b ∷ [],
    )
    else (check_binding b r >> ok (r, rows))

-- The record that is returned, and the table.
unfoldable pub reserve_idempotency :
    Iso
    → ℕ
    → Option String
    → Binding
    → List IdempotencyRecord
    → Result IdempotencyError (IdempotencyRecord × List IdempotencyRecord)
unfolding validate_identity reserve_selected select_record
reserve_idempotency iso now expires_at b rows =
    validate_identity b.key (some b.request_id) (some b.workflow_id) b.scope
    >> (scope_name b.scope >>= λ ns.
        reserve_selected iso now expires_at ns b (select_record ns b.key rows) rows)

-- What `complete_idempotency` sets.
abbrev pub completed_record : ℕ → String → String → IdempotencyRecord → IdempotencyRecord
completed_record now workflow_id outcome r = record r {
  workflow_id = workflow_id;
  status = completed;
  terminal_outcome_fingerprint = some outcome;
  updated_at = now;
}

abbrev pub is_reserved : IdempotencyStatus → Bool
is_reserved reserved = true
is_reserved completed = false

unfoldable pub check_completion :
    String
    → String
    → String
    → Option String
    → IdempotencyRecord
    → Result IdempotencyError (Unit {0})
check_completion key workflow_id outcome scope r =
    raise_if (not (opt_eq r.tenant_scope_fingerprint scope)) (other_scope key)
    >> (raise_if (not (str_eq r.workflow_id workflow_id)) (other_workflow key)
        >> (raise_if (not (is_reserved r.status)) (already_completed key)
            >> raise_if (not (is_fingerprint outcome)) (unsafe_outcome key)))

unfoldable pub complete_selected :
    ℕ
    → String
    → String
    → String
    → Option String
    → String
    → Option IdempotencyRecord
    → List IdempotencyRecord
    → Result IdempotencyError (IdempotencyRecord × List IdempotencyRecord)
unfolding check_completion update_records
complete_selected now key workflow_id outcome scope ns none rows = err (not_found key)
complete_selected now key workflow_id outcome scope ns (some r) rows =
    check_completion key workflow_id outcome scope r
    >> ok (
      completed_record now workflow_id outcome r,
      update_records ns key (completed_record now workflow_id outcome) rows,
    )

unfoldable pub complete_idempotency :
    ℕ
    → String
    → String
    → String
    → Option String
    → List IdempotencyRecord
    → Result IdempotencyError (IdempotencyRecord × List IdempotencyRecord)
unfolding validate_identity complete_selected select_record
complete_idempotency now key workflow_id outcome scope rows =
    validate_identity key none (some workflow_id) scope
    >> (scope_name scope >>= λ ns.
        complete_selected now key workflow_id outcome scope ns (select_record ns key rows) rows)

unfoldable pub get_idempotency :
    String
    → Option String
    → List IdempotencyRecord
    → Result IdempotencyError (Option IdempotencyRecord)
unfolding select_record
get_idempotency key scope rows = scope_name scope >>= λ ns. ok (select_record ns key rows)
