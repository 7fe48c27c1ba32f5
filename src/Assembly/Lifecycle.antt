-- ===== src/Assembly/Lifecycle.antt =====
-- The authorized operations on a draft (assembly/lifecycle.py, assembly/authorization.py). The host's
-- `authorize` is an argument; the audit records that accompany a result are left out, but for the
-- check of the reason that their construction makes.
use nl2data_core.Common.{
  ℕ, Bool, true, false, ◌&&◌, not, Option, none, some, List, [], ◌∷◌, String, Result, ok, err,
  ◌>>=◌, ◌>>◌, raise_if, if◌then◌else◌, str_eq, opt_eq, get_or_else, is_some,
}
use Prim.Native.String.{◌++◌ as str_append}
use nl2data_core.Assembly.Assertions.{
  ReviewState, AssertionProvenanceKind, manual, discovered, inferred, llm_suggested,
  AssertionProvenance, SemanticAssertion, Hashes, AssemblyError, not_in_review, unknown_assertion,
  stale_provenance, bad_decision, missing_role, denied, invalid, is_pending, create, bind_review,
}
use nl2data_core.Assembly.Draft.{
  AssemblyState, AssemblyDraft, review, approved, change_assertions, mutate, validate_draft,
  transition,
}

pub data LifecycleRole : Type 0 where
  author reviewer approver publisher : LifecycleRole

pub data LifecycleAction : Type 0 where
  create_draft edit_draft submit_for_review_action review_assertion edit_assertion_action
        approve_draft_action publish activate rollback :
      LifecycleAction

-- With the roles as a test.
pub record LifecycleAuthorizationContext : Type 0 where
  pub operator_reference : String
  pub tenant_scope_fingerprint : String
  pub source_id : String
  pub has_role : LifecycleRole → Bool

pub record LifecycleAuthorizationRequest : Type 0 where
  pub context : LifecycleAuthorizationContext
  pub required_role : LifecycleRole
  pub action : LifecycleAction
  pub resource_id : String

-- Whether the host allows a request.
abbrev pub LifecycleAuthorizer : Type 0
LifecycleAuthorizer = LifecycleAuthorizationRequest → Bool

unfoldable pub require_lifecycle_authorization :
    LifecycleAuthorizationContext
    → LifecycleAuthorizer
    → LifecycleRole
    → LifecycleAction
    → String
    → Result AssemblyError (Unit {0})
require_lifecycle_authorization context authorizer required_role action resource_id =
    raise_if (not (context.has_role required_role)) missing_role
    >> raise_if
        (not (
          authorizer (record {
            context = context;
            required_role = required_role;
            action = action;
            resource_id = resource_id;
          })))
        denied

unfoldable pub find_assertion : String → List SemanticAssertion → Option SemanticAssertion
find_assertion id [] = none
find_assertion id (a ∷ others) = if str_eq a.id id then some a else find_assertion id others

abbrev pub is_review : AssemblyState → Bool
is_review review = true
is_review _ = false

-- `_target`
unfoldable pub target : AssemblyDraft → String → Result AssemblyError SemanticAssertion
unfolding find_assertion
target d assertion_id =
    raise_if (not (is_review d.state)) not_in_review
    >> elim (find_assertion assertion_id d.assertions) [
      | none ↦ err unknown_assertion
      | some a ↦ ok a
    ]

unfoldable pub replace_all :
    SemanticAssertion → SemanticAssertion → List SemanticAssertion → List SemanticAssertion
replace_all original replacement [] = []
replace_all original replacement (a ∷ others) =
    (if str_eq a.id original.id then replacement else a) ∷ replace_all original replacement others

-- `_replace`
unfoldable pub replace :
    Hashes
    → AssemblyDraft
    → ℕ
    → SemanticAssertion
    → SemanticAssertion
    → String
    → Result AssemblyError AssemblyDraft
unfolding replace_all
replace h d expected_revision original replacement reason =
    mutate h expected_revision (change_assertions (replace_all original replacement d.assertions)) d
    >>= λ updated. raise_if (not (h.reason_ok reason)) invalid >> ok updated

-- The provenance was discovered or inferred from another snapshot than that of the draft.
abbrev pub is_derived : AssertionProvenanceKind → Bool
is_derived discovered = true
is_derived inferred = true
is_derived manual = false
is_derived llm_suggested = false

abbrev pub is_stale : AssemblyDraft → SemanticAssertion → Bool
is_stale d a =
    is_some d.source_snapshot_fingerprint
    && is_derived a.provenance.kind
    && not (opt_eq a.provenance.snapshot_fingerprint d.source_snapshot_fingerprint)

unfoldable pub decide_assertion :
    Hashes
    → AssemblyDraft
    → String
    → ReviewState
    → ℕ
    → LifecycleAuthorizationContext
    → LifecycleAuthorizer
    → String
    → Result AssemblyError AssemblyDraft
decide_assertion h d assertion_id decision expected_revision authorization authorizer reason =
    require_lifecycle_authorization authorization authorizer reviewer review_assertion d.draft_id
    >> (raise_if (is_pending decision) bad_decision
        >> (target d assertion_id >>= λ original.
            raise_if (is_stale d original) stale_provenance
            >> (bind_review h decision authorization.operator_reference reason original
                >>= λ replacement. replace h d expected_revision original replacement reason)))

-- A human edit: the provenance becomes manual.
abbrev pub edited_provenance : SemanticAssertion → AssertionProvenance
edited_provenance original = record original.provenance {
  kind = manual;
  source_reference =
      some (get_or_else original.provenance.source_reference (str_append "seed:" original.id));
}

unfoldable pub edit_assertion :
    Hashes
    → AssemblyDraft
    → String
    → String
    → ℕ
    → LifecycleAuthorizationContext
    → LifecycleAuthorizer
    → String
    → Result AssemblyError AssemblyDraft
edit_assertion h d assertion_id payload expected_revision authorization authorizer reason =
    require_lifecycle_authorization authorization authorizer reviewer edit_assertion_action
      d.draft_id
    >> (target d assertion_id >>= λ original.
        create h original.type payload (edited_provenance original) >>= λ replacement.
        replace h d expected_revision original replacement reason)

unfoldable pub submit_for_review :
    Hashes
    → AssemblyDraft
    → ℕ
    → LifecycleAuthorizationContext
    → LifecycleAuthorizer
    → Result AssemblyError AssemblyDraft
submit_for_review h d expected_revision authorization authorizer =
    require_lifecycle_authorization authorization authorizer author submit_for_review_action
      d.draft_id
    >> (transition h expected_revision review d >>= λ updated.
        validate_draft h
          (record updated { review_submitted_by = some authorization.operator_reference }))

unfoldable pub approve_draft :
    Hashes
    → AssemblyDraft
    → ℕ
    → LifecycleAuthorizationContext
    → LifecycleAuthorizer
    → Result AssemblyError AssemblyDraft
approve_draft h d expected_revision authorization authorizer =
    require_lifecycle_authorization authorization authorizer approver approve_draft_action
      d.draft_id
    >> (transition h expected_revision approved d >>= λ updated.
        validate_draft h (record updated { approved_by = some authorization.operator_reference }))
