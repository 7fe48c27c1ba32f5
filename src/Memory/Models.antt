-- ===== src/Memory/Models.antt =====
-- Records, scopes and budgets (memory/models.py). Of a record, the fields that the provider reads,
-- and its payload as a text; times are microseconds. The fingerprints are computed at construction
-- from the other fields: here they are fields of their own.
use nl2data_core.Common.{
  ℕ, Bool, true, ◌&&◌, not, Option, none, some, String, str_eq, opt_eq, leb, is_some,
}

pub record MemoryScope : Type 0 where
  pub tenant_scope_fingerprint : Option String
  pub session_id : String
  pub conversation_id : Option String
  pub adapter_id : Option String
  pub source_id : Option String
  pub fingerprint : String

pub record MemoryRecord : Type 0 where
  pub record_id : String
  pub scope : MemoryScope
  pub payload : String
  pub created_at : ℕ
  pub expires_at : ℕ
  pub fingerprint : String

pub record MemoryRecallBudget : Type 0 where
  pub max_records : ℕ
  pub max_chars : ℕ
  pub max_tokens : ℕ

-- `expires_at` is set by construction.
abbrev pub is_expired : ℕ → MemoryRecord → Bool
is_expired now r = leb r.expires_at now

-- `query is None or record == query`
abbrev pub matches_query : Option String → Option String → Bool
matches_query query record_value = elim query [
  | none ↦ true
  | some q ↦ opt_eq record_value (some q)
]

-- Without a tenant in the query, a record with one does not match.
abbrev pub tenant_matches : Option String → Option String → Bool
tenant_matches query record_value = elim query [
  | none ↦ not (is_some record_value)
  | some q ↦ opt_eq record_value (some q)
]

-- `_scope_matches`
abbrev pub scope_matches : MemoryScope → MemoryScope → Bool
scope_matches record_scope query_scope =
    tenant_matches query_scope.tenant_scope_fingerprint record_scope.tenant_scope_fingerprint
    && str_eq record_scope.session_id query_scope.session_id
    && matches_query query_scope.conversation_id record_scope.conversation_id
    && matches_query query_scope.adapter_id record_scope.adapter_id
    && matches_query query_scope.source_id record_scope.source_id
