-- ===== src/Assembly/Draft.antt =====
-- `AssemblyDraft` (assembly/models.py) with `mutate` and `transition`. Bindings, source references and
-- compatibility are their contents as texts; `api_version` has one value only and is no field here.
use nl2data_core.Common.{
  ℕ, ◌+◌, Bool, true, false, ◌&&◌, ◌||◌, not, Option, none, some, List, [], ◌∷◌, String, Result, ok,
  err, ◌>>◌, raise_if, if◌then◌else◌, str_eq, opt_eq, any, all, length, leb, ◌==◌, is_some,
  is_nonempty, get_or_else,
}
use nl2data_core.Common.Text.{is_identifier, is_fingerprint, codes}
use nl2data_core.Assembly.Assertions.{
  SemanticAssertion, Hashes, AssemblyError, revision_conflict, invalid, frozen, protected_fields,
  invalid_transition, unreviewed, is_pending, has_valid_review_binding, assertion_ok,
}

pub data AssemblyState : Type 0 where
  draft review approved published : AssemblyState

pub record VerificationPlan : Type 0 where
  pub fingerprint : String
  pub content : String

pub record DeploymentBinding : Type 0 where
  pub binding_id : String
  pub content : String

pub record AssemblyDraft : Type 0 where
  pub draft_id : String
  pub bundle_id : String
  pub source_id : String
  pub model_version : String
  pub state : AssemblyState
  pub draft_revision : ℕ
  pub assertions : List SemanticAssertion
  pub deployment_bindings : List DeploymentBinding
  pub author_reference : String
  pub review_submitted_by : Option String
  pub approved_by : Option String
  pub verification_plan : Option VerificationPlan
  pub approved_verification_plan_fingerprint : Option String
  pub source_snapshot_fingerprint : Option String
  pub authoring_description : Option String
  pub authoring_source_references : Option (List String)
  pub authoring_compatibility : Option String

abbrev pub is_approved : AssemblyState → Bool
is_approved approved = true
is_approved draft = false
is_approved review = false
is_approved published = false

abbrev pub is_published : AssemblyState → Bool
is_published published = true
is_published draft = false
is_published review = false
is_published approved = false

-- The fingerprint that an approved draft binds; none in another state.
abbrev pub plan_fingerprint : AssemblyState → Option VerificationPlan → Option String
plan_fingerprint state none = none
plan_fingerprint state (some plan) = if is_approved state then some plan.fingerprint else none

-- `len(ids) == len(set(ids))`
unfoldable pub distinct_ids : List SemanticAssertion → Bool
distinct_ids [] = true
distinct_ids (a ∷ others) = not (any (λ b. str_eq a.id b.id) others) && distinct_ids others

abbrev pub max_assertions : ℕ
max_assertions = 16384

-- `2**63 - 1`
abbrev pub max_revision : ℕ
max_revision = 9223372036854775807

unfoldable pub distinct_bindings : List DeploymentBinding → Bool
distinct_bindings [] = true
distinct_bindings (b ∷ others) =
    not (any (λ c. str_eq b.binding_id c.binding_id) others) && distinct_bindings others

-- `min_length=1`, `_MAX_REFERENCE_CHARS` and `_safe_author_reference`.
unfoldable pub reference_ok : Hashes → String → Bool
reference_ok h text =
    leb 1 (length (codes text)) && leb (length (codes text)) 256 && h.is_safe_description text

abbrev pub optional_ok : (String → Bool) → Option String → Bool
optional_ok p none = true
optional_ok p (some text) = p text

abbrev pub references_bounded : Option (List String) → Bool
references_bounded none = true
references_bounded (some references) = leb (length references) 64

-- The constraints of the fields.
unfoldable pub fields_ok : Hashes → AssemblyDraft → Bool
unfolding reference_ok
fields_ok h d =
    is_identifier d.draft_id
    && is_identifier d.bundle_id
    && is_identifier d.source_id
    && is_identifier d.model_version
    && reference_ok h d.author_reference
    && optional_ok (reference_ok h) d.review_submitted_by
    && optional_ok (reference_ok h) d.approved_by
    && optional_ok is_fingerprint d.approved_verification_plan_fingerprint
    && optional_ok is_fingerprint d.source_snapshot_fingerprint
    && optional_ok (λ text. leb (length (codes text)) 1024 && h.is_safe_description text)
        d.authoring_description
    && references_bounded d.authoring_source_references
    && leb (length d.deployment_bindings) 64

-- The validators of the class, and those of its assertions.
unfoldable pub draft_ok : Hashes → AssemblyDraft → Bool
unfolding distinct_ids distinct_bindings fields_ok
draft_ok h d =
    leb d.draft_revision max_revision
    && leb (length d.assertions) max_assertions
    && all (assertion_ok h) d.assertions
    && distinct_ids d.assertions
    && not (is_published d.state)
    && opt_eq d.approved_verification_plan_fingerprint
        (plan_fingerprint d.state d.verification_plan)
    && distinct_bindings d.deployment_bindings
    && fields_ok h d

-- `model_validate`
unfoldable pub validate_draft : Hashes → AssemblyDraft → Result AssemblyError AssemblyDraft
validate_draft h d = if draft_ok h d then ok d else err invalid

abbrev pub require_revision : ℕ → AssemblyDraft → Result AssemblyError (Unit {0})
require_revision expected_revision d =
    raise_if (not (expected_revision == d.draft_revision)) revision_conflict

-- `==` on `VerificationPlan | None`.
abbrev pub same_plan : Option VerificationPlan → Option VerificationPlan → Bool
same_plan none none = true
same_plan none (some q) = false
same_plan (some p) none = false
same_plan (some p) (some q) = str_eq p.fingerprint q.fingerprint && str_eq p.content q.content

-- The keyword arguments of `mutate`, each with its value where it is given: the protected fields, the
-- other fields of the class, and the names that are no field.
pub record Changes : Type 0 where
  pub api_version : Option String
  pub draft_id : Option String
  pub draft_revision : Option ℕ
  pub state : Option AssemblyState
  pub approved_by : Option (Option String)
  pub approved_verification_plan_fingerprint : Option (Option String)
  pub bundle_id : Option String
  pub source_id : Option String
  pub model_version : Option String
  pub assertions : Option (List SemanticAssertion)
  pub deployment_bindings : Option (List DeploymentBinding)
  pub author_reference : Option String
  pub review_submitted_by : Option (Option String)
  pub verification_plan : Option (Option VerificationPlan)
  pub source_snapshot_fingerprint : Option (Option String)
  pub authoring_description : Option (Option String)
  pub authoring_source_references : Option (Option (List String))
  pub authoring_compatibility : Option (Option String)
  pub unknown : List String

abbrev pub no_changes : Changes
no_changes = record {
  api_version = none;
  draft_id = none;
  draft_revision = none;
  state = none;
  approved_by = none;
  approved_verification_plan_fingerprint = none;
  bundle_id = none;
  source_id = none;
  model_version = none;
  assertions = none;
  deployment_bindings = none;
  author_reference = none;
  review_submitted_by = none;
  verification_plan = none;
  source_snapshot_fingerprint = none;
  authoring_description = none;
  authoring_source_references = none;
  authoring_compatibility = none;
  unknown = [];
}

abbrev pub change_assertions : List SemanticAssertion → Changes
change_assertions assertions = record no_changes { assertions = some assertions }

-- `protected.intersection(changes)` is not empty.
unfoldable pub attempts_protected : Changes → Bool
attempts_protected c =
    is_some c.api_version
    || is_some c.draft_id
    || is_some c.draft_revision
    || is_some c.state
    || is_some c.approved_by
    || is_some c.approved_verification_plan_fingerprint

-- Some name is given but `verification_plan`.
unfoldable pub changes_others : Changes → Bool
unfolding attempts_protected
changes_others c =
    attempts_protected c
    || is_some c.bundle_id
    || is_some c.source_id
    || is_some c.model_version
    || is_some c.assertions
    || is_some c.deployment_bindings
    || is_some c.author_reference
    || is_some c.review_submitted_by
    || is_some c.source_snapshot_fingerprint
    || is_some c.authoring_description
    || is_some c.authoring_source_references
    || is_some c.authoring_compatibility
    || is_nonempty c.unknown

-- `set(changes) == {"verification_plan"}`
unfoldable pub changes_plan_only : Changes → Bool
unfolding changes_others
changes_plan_only c = is_some c.verification_plan && not (changes_others c)

-- `plan_changed`
unfoldable pub plan_changed : Changes → AssemblyDraft → Bool
plan_changed c d = elim c.verification_plan [
  | none ↦ false
  | some plan ↦ not (same_plan plan d.verification_plan)
]

-- The payload, before what a changed plan resets.
unfoldable pub with_changes : Changes → AssemblyDraft → AssemblyDraft
with_changes c d = record {
  draft_id = get_or_else c.draft_id d.draft_id;
  bundle_id = get_or_else c.bundle_id d.bundle_id;
  source_id = get_or_else c.source_id d.source_id;
  model_version = get_or_else c.model_version d.model_version;
  state = get_or_else c.state d.state;
  draft_revision = d.draft_revision + 1;
  assertions = get_or_else c.assertions d.assertions;
  deployment_bindings = get_or_else c.deployment_bindings d.deployment_bindings;
  author_reference = get_or_else c.author_reference d.author_reference;
  review_submitted_by = get_or_else c.review_submitted_by d.review_submitted_by;
  approved_by = get_or_else c.approved_by d.approved_by;
  verification_plan = get_or_else c.verification_plan d.verification_plan;
  approved_verification_plan_fingerprint =
      get_or_else c.approved_verification_plan_fingerprint d.approved_verification_plan_fingerprint;
  source_snapshot_fingerprint =
      get_or_else c.source_snapshot_fingerprint d.source_snapshot_fingerprint;
  authoring_description = get_or_else c.authoring_description d.authoring_description;
  authoring_source_references =
      get_or_else c.authoring_source_references d.authoring_source_references;
  authoring_compatibility = get_or_else c.authoring_compatibility d.authoring_compatibility;
}

-- The payload, with what `plan_changed` resets in it.
unfoldable pub payload : Bool → Changes → AssemblyDraft → AssemblyDraft
unfolding with_changes
payload false c d = with_changes c d
payload true c d = record (with_changes c d) {
  state = if is_approved d.state then review else d.state;
  approved_by = none;
  approved_verification_plan_fingerprint = none;
}

unfoldable pub mutate : Hashes → ℕ → Changes → AssemblyDraft → Result AssemblyError AssemblyDraft
unfolding validate_draft attempts_protected changes_others changes_plan_only plan_changed payload
mutate h expected_revision c d =
    require_revision expected_revision d
    >> (if changes_plan_only c && not (plan_changed c d)
        then ok d
        else (raise_if
              (is_approved d.state
                && (is_some c.verification_plan || changes_others c)
                && not (plan_changed c d && changes_plan_only c))
              frozen
            >> (raise_if (attempts_protected c) protected_fields
                >> (raise_if (is_nonempty c.unknown) invalid
                    >> validate_draft h (payload (plan_changed c d) c d)))))

abbrev pub in_state : AssemblyState → AssemblyDraft → AssemblyDraft
in_state state d = record d {
  state = state;
  draft_revision = d.draft_revision + 1;
  approved_by = if is_approved state then d.approved_by else none;
  approved_verification_plan_fingerprint = plan_fingerprint state d.verification_plan;
}

abbrev pub allowed : AssemblyState → AssemblyState → Bool
allowed draft review = true
allowed review draft = true
allowed review approved = true
allowed approved review = true
allowed _ _ = false

-- `pending`, as a test.
abbrev pub needs_review : Hashes → SemanticAssertion → Bool
needs_review h a = is_pending a.review_state || not (has_valid_review_binding h a)

unfoldable pub transition :
    Hashes → ℕ → AssemblyState → AssemblyDraft → Result AssemblyError AssemblyDraft
unfolding validate_draft
transition h expected_revision state d =
    require_revision expected_revision d
    >> (raise_if (not (allowed d.state state)) invalid_transition
        >> (raise_if (is_approved state && any (needs_review h) d.assertions) unreviewed
            >> validate_draft h (in_state state d)))
