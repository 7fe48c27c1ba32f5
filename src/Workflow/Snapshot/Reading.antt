-- ===== src/Workflow/Snapshot/Reading.antt =====
-- `deserialize_snapshot` (workflow/durable.py), and the validation of the document of a state
-- (workflow/models.py).
use nl2data_core.Common.{
  ℕ, Bool, false, not, Option, none, some, List, [], ◌∷◌, String, Result, ok, err, ◌>>=◌, ◌>>◌,
  raise_if, any, all, contains, set_of, ◌==◌,
}
use nl2data_core.Common.Dict.{Dict, lookup}
use nl2data_core.Common.Json.{
  Json, Members, null, boolean, number, string, array, object, value_of, member_names, read_all,
  read_members,
}
use nl2data_core.Workflow.Models.{
  created, WorkflowBudget, budget_ok, WorkflowEvent, event_ok, WorkflowState, state_ok,
}
use nl2data_core.Workflow.Snapshot.{
  Iso, SerializationError, invalid_state, missing_state, not_an_object, not_json, raw_fields,
  raw_payload_fields, snapshot_schema_version, stages, statuses, unsupported_version,
}

-- A value of one type.
abbrev pub read_string : Json → Result SerializationError String
read_string (string t) = ok t
read_string _ = err invalid_state

abbrev pub read_number : Json → Result SerializationError ℕ
read_number (number n) = ok n
read_number _ = err invalid_state

abbrev pub read_boolean : Json → Result SerializationError Bool
read_boolean (boolean b) = ok b
read_boolean _ = err invalid_state

abbrev pub or_invalid {ℓ} : {A : Type ℓ} → Option A → Result SerializationError A
or_invalid none = err invalid_state
or_invalid (some a) = ok a

-- A member of an enumeration, by its value.
abbrev pub read_member {ℓ} : {A : Type ℓ} → Dict A → Json → Result SerializationError A
read_member options j = read_string j >>= λ t. or_invalid (lookup t options)

abbrev pub read_texts : Json → Result SerializationError (List String)
read_texts (array xs) = read_all read_string xs
read_texts _ = err invalid_state

abbrev pub read_dict : Json → Result SerializationError (Dict String)
read_dict (object d) = read_members read_string d
read_dict _ = err invalid_state

abbrev pub read_optional {ℓ} :
    {A : Type ℓ}
    → (Json → Result SerializationError A)
    → Json
    → Result SerializationError (Option A)
read_optional read null = ok none
read_optional read j = read j >>= λ a. ok (some a)

-- A field of a model: with `none`, one that is required.
abbrev pub read_field {ℓ} :
    {A : Type ℓ}
    → Option A
    → (Json → Result SerializationError A)
    → String
    → Members
    → Result SerializationError A
read_field default read name d = elim (value_of name d) [
  | none ↦ or_invalid default
  | some j ↦ read j
]

-- `extra="forbid"`
abbrev pub forbid_extra : List String → Members → Result SerializationError (Unit {0})
forbid_extra known d = raise_if (not (all (λ k. contains k known) (member_names d))) invalid_state

abbrev pub event_fields : List String
event_fields =
    "event_id" ∷ "workflow_id" ∷ "from_status" ∷ "to_status" ∷ "occurred_at" ∷ "metadata" ∷ []

abbrev pub budget_fields : List String
budget_fields =
    "max_attempts" ∷ "max_events" ∷ "max_retries" ∷ "max_repairs" ∷ "max_duration_seconds" ∷ []

abbrev pub state_fields : List String
state_fields =
    "version" ∷ "workflow_id" ∷ "request_id" ∷ "tenant_scope_fingerprint" ∷ "status" ∷ "attempts"
    ∷ "budget" ∷ "events" ∷ "evidence_fingerprints" ∷ "current_stage" ∷ "gate_evidence_fingerprints"
    ∷ "compatibility_fingerprints" ∷ "cancellation_requested" ∷ "deadline_at" ∷ "retry_count"
    ∷ "repair_count" ∷ []

-- `WorkflowBudget()`
abbrev pub default_budget : WorkflowBudget
default_budget = record {
  max_attempts = 3;
  max_events = 100;
  max_retries = 3;
  max_repairs = 1;
  max_duration_seconds = 300;
}

unfoldable pub read_budget : Json → Result SerializationError WorkflowBudget
read_budget (object d) = do
  forbid_extra budget_fields d
  max_attempts ← read_field (some 3) read_number "max_attempts" d
  max_events ← read_field (some 100) read_number "max_events" d
  max_retries ← read_field (some 3) read_number "max_retries" d
  max_repairs ← read_field (some 1) read_number "max_repairs" d
  max_duration_seconds ← read_field (some 300) read_number "max_duration_seconds" d
  let budget : WorkflowBudget = record {
    max_attempts = max_attempts;
    max_events = max_events;
    max_retries = max_retries;
    max_repairs = max_repairs;
    max_duration_seconds = max_duration_seconds;
  }
  raise_if (not (budget_ok budget)) invalid_state
  ok budget
read_budget _ = err invalid_state

module _ (iso : Iso) (now : ℕ) where
  abbrev pub read_time : Json → Result SerializationError ℕ
  read_time j = read_string j >>= λ t. or_invalid (iso.parse t)

  -- `WorkflowEvent.model_validate`
  unfoldable pub read_event : Json → Result SerializationError WorkflowEvent
  read_event (object d) = do
    forbid_extra event_fields d
    event_id ← read_field none read_string "event_id" d
    workflow_id ← read_field none read_string "workflow_id" d
    from_status ← read_field none (read_member statuses) "from_status" d
    to_status ← read_field none (read_member statuses) "to_status" d
    occurred_at ← read_field (some now) read_time "occurred_at" d
    metadata ← read_field (some []) read_dict "metadata" d
    let event : WorkflowEvent = record {
      event_id = event_id;
      workflow_id = workflow_id;
      from_status = from_status;
      to_status = to_status;
      occurred_at = occurred_at;
      metadata = metadata;
    }
    raise_if (not (event_ok event)) invalid_state
    ok event
  read_event _ = err invalid_state

  abbrev pub read_events : Json → Result SerializationError (List WorkflowEvent)
  read_events (array xs) = read_all read_event xs
  read_events _ = err invalid_state

  -- `WorkflowState.model_validate`
  unfoldable pub read_state : Members → Result SerializationError WorkflowState
  unfolding read_event read_budget
  read_state d = do
    forbid_extra state_fields d
    version ← read_field (some 1) read_number "version" d
    workflow_id ← read_field none read_string "workflow_id" d
    request_id ← read_field none read_string "request_id" d
    scope ← read_field (some none) (read_optional read_string) "tenant_scope_fingerprint" d
    status ← read_field (some created) (read_member statuses) "status" d
    attempts ← read_field (some 0) read_number "attempts" d
    budget ← read_field (some default_budget) read_budget "budget" d
    events ← read_field (some []) read_events "events" d
    evidence ← read_field (some []) read_texts "evidence_fingerprints" d
    stage ← read_field (some none) (read_optional (read_member stages)) "current_stage" d
    gate_evidence ← read_field (some []) read_texts "gate_evidence_fingerprints" d
    compatibility ← read_field (some []) read_dict "compatibility_fingerprints" d
    cancellation ← read_field (some false) read_boolean "cancellation_requested" d
    deadline ← read_field (some none) (read_optional read_time) "deadline_at" d
    retry_count ← read_field (some 0) read_number "retry_count" d
    repair_count ← read_field (some 0) read_number "repair_count" d
    let state : WorkflowState = record {
      version = version;
      workflow_id = workflow_id;
      request_id = request_id;
      tenant_scope_fingerprint = scope;
      status = status;
      attempts = attempts;
      budget = budget;
      events = events;
      evidence_fingerprints = set_of evidence [];
      current_stage = stage;
      gate_evidence_fingerprints = set_of gate_evidence [];
      compatibility_fingerprints = compatibility;
      cancellation_requested = cancellation;
      deadline_at = deadline;
      retry_count = retry_count;
      repair_count = repair_count;
    }
    raise_if (not (state_ok state)) invalid_state
    ok state

  -- The checks of the document, before `model_validate`.
  unfoldable pub read_document : Json → Result SerializationError WorkflowState
  unfolding read_state
  read_document (object d) = elim (value_of "schema_version" d) [
    | some (number version) ↦
        (raise_if (not (version == snapshot_schema_version)) unsupported_version
          >> elim (value_of "state" d) [
            | some (object state) ↦
                (raise_if (any (λ k. contains k raw_payload_fields) (member_names state)) raw_fields
                  >> read_state state)
            | _ ↦ err missing_state
          ])
    | _ ↦ err unsupported_version
  ]
  read_document _ = err not_an_object

  unfoldable pub deserialize_snapshot : Option Json → Result SerializationError WorkflowState
  unfolding read_document
  deserialize_snapshot none = err not_json
  deserialize_snapshot (some document) = read_document document
