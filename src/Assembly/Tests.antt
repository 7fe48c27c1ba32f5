-- ===== src/Assembly/Tests.antt =====
-- A draft with one assertion, from authoring to approval.
use nl2data_core.Common.{◌+◌, ◌≡◌, ◌⊎◌, refl, none, some, true, false, [], ◌∷◌, ok, err, any}
use nl2data_core.Common.Text.{is_identifier}
use nl2data_core.Assembly.Assertions.{
  SemanticAssertion, Hashes, ReviewState, manual, measure, frozen, protected_fields, unreviewed,
  assertion_ok, has_valid_review_binding, validate_assertion, bind_review,
}
use nl2data_core.Assembly.Draft.{
  AssemblyState, AssemblyDraft, draft, review, change_assertions, draft_ok, distinct_ids,
  distinct_bindings, fields_ok, reference_ok, attempts_protected, changes_others, changes_plan_only,
  plan_changed, payload, with_changes, validate_draft, needs_review, mutate, transition,
}
use nl2data_core.Assembly.Lifecycle.{
  LifecycleAuthorizationContext, LifecycleAuthorizer, approver, approve_draft_action,
  require_lifecycle_authorization, find_assertion, target, replace_all, replace, decide_assertion,
  submit_for_review, approve_draft,
}
use nl2data_core.Assembly.Approval.{IsSettled}
use nl2data_core.Assembly.Reach.{
  by_submit, by_decide, by_approve, Reach, start, next, Reach-Reviewed, approve_draft-Approved,
  Step-frozen, Step-advances, by_transition,
}

abbrev hashes : Hashes
hashes = record {
  payload_hash = λ t p. p;
  derive_assertion_id = λ t p. p;
  payload_ok = λ p. true;
  reason_ok = λ r. true;
  is_safe_description = λ t. true;
}

abbrev operator : LifecycleAuthorizationContext
operator = record {
  operator_reference = "op";
  tenant_scope_fingerprint = "t";
  source_id = "db";
  has_role = λ r. true;
}

abbrev allow : LifecycleAuthorizer
allow = λ r. true

abbrev proposed : SemanticAssertion
proposed = record {
  id = "revenue";
  type = measure;
  payload = "revenue";
  provenance = record {
    kind = manual;
    source_reference = none;
    proposal_reference = none;
    snapshot_fingerprint = none;
    evidence_fingerprint = none;
    method = none;
  };
  review_state = ReviewState.pending;
  review_binding = none;
}

abbrev decided : SemanticAssertion
decided = record proposed {
  review_state = ReviewState.approved;
  review_binding =
      some (record { payload_hash = "revenue"; reviewer_reference = "op"; reason = "" });
}

abbrev authored : AssemblyDraft
authored = record {
  draft_id = "d1";
  bundle_id = "sales";
  source_id = "db";
  model_version = "1";
  state = draft;
  draft_revision = 0;
  assertions = proposed ∷ [];
  deployment_bindings = [];
  author_reference = "op";
  review_submitted_by = none;
  approved_by = none;
  verification_plan = none;
  approved_verification_plan_fingerprint = none;
  source_snapshot_fingerprint = none;
  authoring_description = none;
  authoring_source_references = none;
  authoring_compatibility = none;
}

abbrev submitted : AssemblyDraft
submitted = record authored { state = review; draft_revision = 1; review_submitted_by = some "op" }

abbrev reviewed : AssemblyDraft
reviewed = record submitted { draft_revision = 2; assertions = decided ∷ [] }

abbrev released : AssemblyDraft
released = record reviewed {
  state = AssemblyState.approved;
  draft_revision = 3;
  approved_by = some "op";
}

submitted_by : submit_for_review hashes authored 0 operator allow ≡ ok submitted
unfolding submit_for_review require_lifecycle_authorization transition validate_draft draft_ok
    fields_ok reference_ok is_identifier distinct_bindings distinct_ids assertion_ok
submitted_by = refl

decided_by :
    decide_assertion hashes submitted "revenue" ReviewState.approved 1 operator allow ""
    ≡ ok reviewed
unfolding decide_assertion require_lifecycle_authorization find_assertion target bind_review
    validate_assertion assertion_ok replace_all replace mutate attempts_protected changes_others
    changes_plan_only plan_changed payload with_changes validate_draft draft_ok distinct_ids
    fields_ok reference_ok is_identifier distinct_bindings
decided_by = refl

released_by : approve_draft hashes reviewed 2 operator allow ≡ ok released
unfolding approve_draft require_lifecycle_authorization transition validate_draft draft_ok fields_ok
    reference_ok is_identifier distinct_bindings distinct_ids assertion_ok has_valid_review_binding
released_by = refl

refused_unreviewed : approve_draft hashes submitted 1 operator allow ≡ err unreviewed
unfolding approve_draft require_lifecycle_authorization transition has_valid_review_binding
refused_unreviewed = refl

refused_frozen : mutate hashes 3 (change_assertions []) released ≡ err frozen
unfolding mutate attempts_protected changes_others changes_plan_only plan_changed
refused_frozen = refl

-- The state is no change, whatever else is changed.
refused_state :
    mutate hashes 2 (record (change_assertions []) { state = some AssemblyState.approved }) reviewed
    ≡ err protected_fields
unfolding mutate attempts_protected changes_others changes_plan_only plan_changed
refused_state = refl

-- A change of the plan and the assertions together.
refused_combined :
    mutate hashes 3
      (record (change_assertions []) {
        verification_plan = some (some (record { fingerprint = "f"; content = "c" }));
      })
      released
    ≡ err frozen
unfolding mutate attempts_protected changes_others changes_plan_only plan_changed
refused_combined = refl

released-Reach : Reach hashes released
unfolding draft_ok distinct_ids assertion_ok fields_ok reference_ok is_identifier distinct_bindings
released-Reach =
    next reviewed released
      (next submitted reviewed
        (next authored submitted (start authored refl refl)
          (by_submit 0 operator allow authored submitted submitted_by))
        (by_decide "revenue" ReviewState.approved 1 operator allow "" submitted reviewed
          decided_by))
      (by_approve 2 operator allow reviewed released released_by)

Reach-Reviewed_example : IsSettled hashes released
Reach-Reviewed_example = Reach-Reviewed hashes released released-Reach

approve_draft-Approved_example :
    (true ≡ true)
    × (allow (record {
      context = operator;
      required_role = approver;
      action = approve_draft_action;
      resource_id = "d1";
    })
        ≡ true)
    × (released.state ≡ AssemblyState.approved)
    × (released.approved_by ≡ some "op")
    × (any (needs_review hashes) released.assertions ≡ false)
approve_draft-Approved_example =
    approve_draft-Approved hashes reviewed 2 operator allow released released_by

abbrev returned : AssemblyDraft
returned = record released { state = review; draft_revision = 4; approved_by = none }

returned_by : transition hashes 3 review released ≡ ok returned
unfolding transition validate_draft draft_ok distinct_ids assertion_ok fields_ok reference_ok
    is_identifier distinct_bindings
returned_by = refl

Step-frozen_example : returned.assertions ≡ released.assertions
Step-frozen_example =
    Step-frozen hashes released returned refl (by_transition 3 review released returned returned_by)

Step-advances_example :
    (returned ≡ released) ⊎ (returned.draft_revision ≡ released.draft_revision + 1)
Step-advances_example =
    Step-advances hashes released returned (by_transition 3 review released returned returned_by)
