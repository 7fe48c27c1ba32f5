-- ===== src/Workflow/Sqlite/Keys.antt =====
-- The rows of a table by their key, and the namespaces of the scopes.
use Prim.Native.String.{◌++◌ as str_append, count as str_length}
use text.Mathlib.TextLemmas.{append_cancel_left, length-append}
use nl2data_core.Common.{
  ◌≡◌, ◌↔◌, refl, sym, ap, subst, ◌∙◌, inl, inr, Bool-cases, Bool, true, false, ◌&&◌, Option, none,
  some, List, [], ◌∷◌, ◌++◌, String, ok, arith, str_eq, str_eq_iff, opt_eq, opt_eq_iff,
  if◌then◌else◌,
}
use nl2data_core.Workflow.Models.{scope_ok}
use nl2data_core.Workflow.Sqlite.{StateRow, namespace, has_state_key, select_state, update_states}

-- The namespace of a scope that is a fingerprint, or none.
abbrev pub namespace_of : Option String → String
namespace_of none = ""
namespace_of (some fingerprint) = str_append "tenant:workflow:" fingerprint

pub namespace-ok :
    (scope : Option String) → scope_ok scope ≡ true → namespace scope ≡ ok (namespace_of scope)
unfolding scope_ok
namespace-ok none h = refl
namespace-ok (some fingerprint) h = rw h refl

-- Different scopes have different namespaces.
pub namespace_of-injective : (a b : Option String) → namespace_of a ≡ namespace_of b → a ≡ b
namespace_of-injective none none h = refl
namespace_of-injective none (some y) h =
    absurd (omega (arith, ap str_length h, length-append "tenant:workflow:" y))
namespace_of-injective (some x) none h =
    absurd (omega (arith, ap str_length h, length-append "tenant:workflow:" x))
namespace_of-injective (some x) (some y) h = ap some (append_cancel_left "tenant:workflow:" x y h)

pub namespace_of-eq : (a b : Option String) → str_eq (namespace_of a) (namespace_of b) ≡ opt_eq a b
namespace_of-eq a b = elim (Bool-cases (opt_eq a b)) [
  | inl same ↦
      (str_eq_iff (namespace_of a) (namespace_of b)).1 (ap namespace_of ((opt_eq_iff a b).0 same))
      ∙ sym same
  | inr other ↦ elim (Bool-cases (str_eq (namespace_of a) (namespace_of b))) [
    | inr apart ↦ apart ∙ sym other
    | inl equal ↦
        equal
        ∙ sym (
            (opt_eq_iff a b).1
              (namespace_of-injective a b ((str_eq_iff (namespace_of a) (namespace_of b)).0 equal)))
  ]
]

-- A row that was selected has the key.
pub select_state-key :
    (ns id : String) (rows : List StateRow) (r : StateRow)
    → select_state ns id rows ≡ some r
    → (r.scope_namespace ≡ ns) × (r.workflow_id ≡ id)
unfolding select_state
select_state-key ns id [] r h = cc
select_state-key ns id (x ∷ rows) r h = elim (Bool-cases (has_state_key ns id x)) [
  | inl here ↦
      let same : x ≡ r = ground (arith, here) in
      subst (λ t. (t.scope_namespace ≡ ns) × (t.workflow_id ≡ id)) same
        (
          ground (arith, str_eq_iff x.scope_namespace ns),
          ground (arith, str_eq_iff x.workflow_id id),
        )
  | inr there ↦ select_state-key ns id rows r (rw there at h)
]

pub select_state-append :
    (ns id : String) (rows : List StateRow) (r : StateRow)
    → select_state ns id (rows ++ r ∷ []) ≡ elim (select_state ns id rows) [
      | some x ↦ some x
      | none ↦ if has_state_key ns id r then some r else none
    ]
unfolding select_state
select_state-append ns id [] r = refl
select_state-append ns id (x ∷ rows) r = ground (arith, select_state-append ns id rows r)

has_state_key_iff :
    (ns id : String) (r : StateRow)
    → (has_state_key ns id r ≡ true) ↔ ((r.scope_namespace ≡ ns) × (r.workflow_id ≡ id))
has_state_key_iff ns id r = (
  λ h. (
    (str_eq_iff r.scope_namespace ns).0 (ground (arith, h)),
    (str_eq_iff r.workflow_id id).0 (ground (arith, h)),
  ),
  λ h. rw ((str_eq_iff r.scope_namespace ns).1 h.0, (str_eq_iff r.workflow_id id).1 h.1) refl,
)

abbrev same_key : String → String → String → String → Bool
same_key m j ns id = str_eq m ns && str_eq j id

-- Two keys of one row are the same key.
same_key_of :
    (ns id m j : String) (r : StateRow)
    → has_state_key m j r ≡ true
    → has_state_key ns id r ≡ same_key m j ns id
same_key_of ns id m j r here =
    let (a, b) = (has_state_key_iff m j r).0 here in
    ap (λ k. str_eq k ns && str_eq r.workflow_id id) a ∙ ap (λ k. str_eq m ns && str_eq k id) b

-- An update that keeps the key changes what is selected by that key only.
pub select_state-update :
    (ns id m j : String) (f : StateRow → StateRow) (rows : List StateRow)
    → ((r : StateRow) → (f r).scope_namespace ≡ r.scope_namespace)
    → ((r : StateRow) → (f r).workflow_id ≡ r.workflow_id)
    → select_state m j (update_states ns id f rows) ≡ elim (select_state m j rows) [
      | none ↦ none
      | some r ↦ some (if str_eq m ns && str_eq j id then f r else r)
    ]
unfolding select_state update_states
select_state-update ns id m j f [] hn hi = refl
select_state-update ns id m j f (r ∷ rows) hn hi = elim (Bool-cases (has_state_key m j r)) [
  | inl here ↦
      rw (keeps (has_state_key ns id r), here)
        (ap (λ b. some (if b then f r else r)) (same_key_of ns id m j r here))
  | inr there ↦
      rw (keeps (has_state_key ns id r), there) (select_state-update ns id m j f rows hn hi)
]
  where
    keeps : (b : Bool) → has_state_key m j (if b then f r else r) ≡ has_state_key m j r
    keeps true =
        ap (λ k. str_eq k m && str_eq (f r).workflow_id j) (hn r)
        ∙ ap (λ k. str_eq r.scope_namespace m && str_eq k j) (hi r)
    keeps false = refl
