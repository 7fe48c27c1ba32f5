-- ===== src/Assembly/Assertions.antt =====
-- The review units of a draft (assembly/models.py). A payload is a text, its canonical JSON. The
-- hashes of the payloads, the derivation of the ids and the text checks are arguments.
use nl2data_core.Common.{
  Bool, true, false, ◌&&◌, not, Option, none, some, String, Result, ok, err, if◌then◌else◌, is_some,
  str_eq,
}

pub data AssertionType : Type 0 where
  entity field relationship mapping policy calculated_field measure grain : AssertionType

pub data ReviewState : Type 0 where
  pending approved rejected : ReviewState

pub data AssertionProvenanceKind : Type 0 where
  manual discovered inferred llm_suggested : AssertionProvenanceKind

pub record AssertionProvenance : Type 0 where
  pub kind : AssertionProvenanceKind
  pub source_reference : Option String
  pub proposal_reference : Option String
  pub snapshot_fingerprint : Option String
  pub evidence_fingerprint : Option String
  pub method : Option String

-- Without the time of the review.
pub record ReviewBinding : Type 0 where
  pub payload_hash : String
  pub reviewer_reference : String
  pub reason : String

pub record SemanticAssertion : Type 0 where
  pub id : String
  pub type : AssertionType
  pub payload : String
  pub provenance : AssertionProvenance
  pub review_state : ReviewState
  pub review_binding : Option ReviewBinding

-- What is computed from a payload: `payload_hash`, `derive_assertion_id`, whether a payload is
-- accepted, whether `validate_safe_description` and the length bound accept a reason, and whether the
-- former accepts a text.
pub record Hashes : Type 0 where
  pub payload_hash : AssertionType → String → String
  pub derive_assertion_id : AssertionType → String → String
  pub payload_ok : String → Bool
  pub reason_ok : String → Bool
  pub is_safe_description : String → Bool

pub data AssemblyError : Type 0 where
  revision_conflict invalid frozen protected_fields invalid_transition unreviewed not_in_review
        unknown_assertion stale_provenance bad_decision missing_role denied :
      AssemblyError

abbrev pub is_pending : ReviewState → Bool
is_pending pending = true
is_pending approved = false
is_pending rejected = false

-- The binding is to the payload that the assertion has.
abbrev pub is_bound : Hashes → SemanticAssertion → Bool
is_bound h a = elim a.review_binding [
  | none ↦ false
  | some b ↦ str_eq b.payload_hash (h.payload_hash a.type a.payload)
]

unfoldable pub has_valid_review_binding : Hashes → SemanticAssertion → Bool
has_valid_review_binding h a = not (is_pending a.review_state) && is_bound h a

-- `_immutable_payload` and `_id_matches_identity`.
unfoldable pub assertion_ok : Hashes → SemanticAssertion → Bool
assertion_ok h a =
    h.payload_ok a.payload
    && str_eq a.id (h.derive_assertion_id a.type a.payload)
    && (if is_pending a.review_state then not (is_some a.review_binding) else is_bound h a)

-- Construction, or `model_validate`.
unfoldable pub validate_assertion :
    Hashes → SemanticAssertion → Result AssemblyError SemanticAssertion
unfolding assertion_ok
validate_assertion h a = if assertion_ok h a then ok a else err invalid

unfoldable pub create :
    Hashes → AssertionType → String → AssertionProvenance → Result AssemblyError SemanticAssertion
unfolding validate_assertion
create h type payload provenance = validate_assertion h (record {
  id = h.derive_assertion_id type payload;
  type = type;
  payload = payload;
  provenance = provenance;
  review_state = pending;
  review_binding = none;
})

unfoldable pub bind_review :
    Hashes
    → ReviewState
    → String
    → String
    → SemanticAssertion
    → Result AssemblyError SemanticAssertion
unfolding validate_assertion
bind_review h state reviewer_reference reason a =
    if not (h.reason_ok reason)
    then err invalid
    else validate_assertion h (record a {
      review_state = state;
      review_binding = some (record {
        payload_hash = h.payload_hash a.type a.payload;
        reviewer_reference = reviewer_reference;
        reason = reason;
      });
    })
