-- ===== src/Workflow/Snapshot.antt =====
-- Durable snapshots (workflow/durable.py) and `serialize_safe` (workflow/models.py): the document of a
-- state; Reading has what is read back from one. A snapshot stands for the document that `json.loads` reads
-- from its text, or for none where the text is no JSON. `isoformat` and the reading of a datetime are
-- an argument. Of the types that pydantic accepts for a field, the one that `serialize_safe` writes.
pub mod Reading
pub mod RoundTrip
use nl2data_core.Common.{
  ℕ, Bool, true, false, not, Option, none, some, List, [], ◌∷◌, String, Result, ok, err, ◌>>=◌,
  ◌>>◌, raise_if, ◌≡◌, if◌then◌else◌, any, all, contains, set_of, ◌==◌, map,
}
use nl2data_core.Common.Dict.{Dict, lookup}
use nl2data_core.Common.Sort.{sorted, str_leb}
use nl2data_core.Common.Json.{
  Json, Elements, Members, null, boolean, number, string, array, object, no_members, member,
  value_of, member_names, elements, text_members, read_all, read_members,
}
use nl2data_core.Workflow.Models.{
  WorkflowStatus, created, queued, running, succeeded, failed, closed, WorkflowStage, stage_value,
  WorkflowBudget, budget_ok, WorkflowEvent, event_ok, WorkflowState, state_ok,
}

-- `t.isoformat()` and the parsing of a datetime; what is written is read back.
pub record Iso : Type 0 where
  pub isoformat : ℕ → String
  pub parse : String → Option ℕ
  pub parse-isoformat : (t : ℕ) → parse (isoformat t) ≡ some t

-- What `deserialize_snapshot` raises.
pub data SerializationError : Type 0 where
  not_json not_an_object unsupported_version missing_state raw_fields invalid_state :
      SerializationError

abbrev pub snapshot_schema_version : ℕ
snapshot_schema_version = 1

abbrev pub raw_payload_fields : List String
raw_payload_fields =
    "prompt" ∷ "raw_prompt" ∷ "query" ∷ "raw_query" ∷ "sql" ∷ "statement" ∷ "result" ∷ "raw_result"
    ∷ "rows" ∷ "credentials" ∷ "password" ∷ "secret" ∷ "token" ∷ "api_key" ∷ "authorization"
    ∷ "cookie" ∷ "private_key" ∷ "connection" ∷ "cursor" ∷ "provider" ∷ "client" ∷ "session" ∷ []

-- The values of the members of `WorkflowStatus`.
abbrev pub status_value : WorkflowStatus → String
status_value created = "created"
status_value queued = "queued"
status_value running = "running"
status_value succeeded = "succeeded"
status_value failed = "failed"
status_value closed = "closed"

abbrev pub statuses : Dict WorkflowStatus
statuses =
    ("created", created)
    ∷ ("queued", queued)
    ∷ ("running", running)
    ∷ ("succeeded", succeeded)
    ∷ ("failed", failed)
    ∷ ("closed", closed)
    ∷ []

abbrev pub stages : Dict WorkflowStage
stages =
    ("initialize", WorkflowStage.initialize)
    ∷ ("memory", WorkflowStage.memory)
    ∷ ("intent", WorkflowStage.intent)
    ∷ ("plan", WorkflowStage.plan)
    ∷ ("validate", WorkflowStage.validate)
    ∷ ("compile", WorkflowStage.compile)
    ∷ ("guard", WorkflowStage.guard)
    ∷ ("govern", WorkflowStage.govern)
    ∷ ("authorize", WorkflowStage.authorize)
    ∷ ("execute", WorkflowStage.execute)
    ∷ ("protect", WorkflowStage.protect)
    ∷ ("persist", WorkflowStage.persist)
    ∷ ("complete", WorkflowStage.complete)
    ∷ []

-- `sorted(items())`, of keys that are there once.
insert_item : String → String → Dict String → Dict String
insert_item k v [] = (k, v) ∷ []
insert_item k v ((j, w) ∷ d) =
    if str_leb k j then (k, v) ∷ (j, w) ∷ d else (j, w) ∷ insert_item k v d

unfoldable pub sorted_items : Dict String → Dict String
unfolding insert_item
sorted_items [] = []
sorted_items ((k, v) ∷ d) = insert_item k v (sorted_items d)

-- A frozenset in the order of `sorted`.
abbrev pub sorted_set : List String → List String
sorted_set xs = set_of (sorted xs) []

abbrev pub optional {ℓ} : {A : Type ℓ} → (A → Json) → Option A → Json
optional f none = null
optional f (some a) = f a

abbrev pub budget_document : WorkflowBudget → Json
budget_document b = object (
    member "max_attempts" (number b.max_attempts) (
      member "max_events" (number b.max_events) (
        member "max_retries" (number b.max_retries) (
          member "max_repairs" (number b.max_repairs)
            (member "max_duration_seconds" (number b.max_duration_seconds) no_members)))))

module _ (iso : Iso) where
  -- `WorkflowEvent.serialize_safe`; `json.dumps` sorts the keys of the metadata.
  unfoldable pub event_document : WorkflowEvent → Json
  event_document e = object (
      member "event_id" (string e.event_id) (
        member "workflow_id" (string e.workflow_id) (
          member "from_status" (string (status_value e.from_status)) (
            member "to_status" (string (status_value e.to_status)) (
              member "occurred_at" (string (iso.isoformat e.occurred_at)) (
                member "metadata" (object (text_members (sorted_items e.metadata))) no_members))))))

  -- `WorkflowState.serialize_safe`
  abbrev pub state_members : WorkflowState → Members
  state_members s = member "version" (number s.version) (
      member "workflow_id" (string s.workflow_id) (
        member "request_id" (string s.request_id) (
          member "tenant_scope_fingerprint" (optional string s.tenant_scope_fingerprint) (
            member "status" (string (status_value s.status)) (
              member "attempts" (number s.attempts) (
                member "budget" (budget_document s.budget) (
                  member "events" (array (elements event_document s.events)) (
                    member "evidence_fingerprints"
                      (array (elements string (sorted_set s.evidence_fingerprints)))
                      (member "current_stage"
                        (optional (λ g. string (stage_value g)) s.current_stage)
                        (member "gate_evidence_fingerprints"
                          (array (elements string (sorted_set s.gate_evidence_fingerprints)))
                          (member "compatibility_fingerprints"
                            (object (text_members (sorted_items s.compatibility_fingerprints)))
                            (member "cancellation_requested" (boolean s.cancellation_requested) (
                              member "deadline_at"
                                (optional (λ t. string (iso.isoformat t)) s.deadline_at)
                                (member "retry_count" (number s.retry_count) (
                                  member "repair_count" (number s.repair_count)
                                    no_members)))))))))))))))

  unfoldable pub serialize_snapshot : WorkflowState → Option Json
  serialize_snapshot s = some (
      object (
        member "schema_version" (number snapshot_schema_version)
          (member "state" (object (state_members s)) no_members)))
