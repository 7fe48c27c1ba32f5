-- ===== src/Workflow/Snapshot/RoundTrip.antt =====
-- Reading the snapshot of a state (workflow/durable.py).
use nl2data_core.Common.{
  ℕ, ◌+◌, ◌≡◌, refl, sym, ◌∙◌, Bool, true, ◌&&◌, Option, none, some, List, [], ◌∷◌, String, ok,
  arith, all, All, All-map, contains, count, ◌≤◌, length, map, str_eq, str_eq_iff, contains-set_of,
  set_of-set_of, inl, inr, Bool-cases, if◌then◌else◌,
}
use nl2data_core.Common.Text.{is_fingerprint}
use nl2data_core.Common.Dict.{Dict, lookup, keys, lookup-eq-none_iff}
use nl2data_core.Common.Sort.{sorted, contains-sorted}
use nl2data_core.Common.Json.{
  string, elements, read_all, read_all-elements, read_members-text_members,
}
use nl2data_core.Workflow.Models.{
  WorkflowStatus, created, queued, running, succeeded, failed, closed, WorkflowStage, stage_value,
  WorkflowBudget, budget_ok, WorkflowEvent, event_ok, WorkflowState, state_ok,
  compatibility_entry_ok, references_ok, identity_ok,
}
use nl2data_core.Workflow.Snapshot.{
  Iso, optional, status_value, statuses, stages, insert_item, sorted_items, sorted_set,
  event_document, budget_document, serialize_snapshot,
}
use nl2data_core.Workflow.Snapshot.Reading.{
  read_optional, read_time, read_string, read_member, read_budget, read_event, read_state,
  read_document, deserialize_snapshot,
}

-- What a constructed state consists of: parts that their classes accept.
pub record IsConstructed (s : WorkflowState) : Type 0 where
  pub state : state_ok s ≡ true
  pub budget : budget_ok s.budget ≡ true
  pub events : All (λ e. event_ok e ≡ true) s.events
  pub compatibility : (k : String) → count k (keys s.compatibility_fingerprints) ≤ 1

-- The event with its metadata in the order of the keys.
abbrev pub canonical_event : WorkflowEvent → WorkflowEvent
canonical_event e = record e { metadata = sorted_items e.metadata }

-- The state with its sets and dictionaries in order: in Python, an equal state.
abbrev pub canonical : WorkflowState → WorkflowState
canonical s = record s {
  events = map canonical_event s.events;
  evidence_fingerprints = sorted_set s.evidence_fingerprints;
  gate_evidence_fingerprints = sorted_set s.gate_evidence_fingerprints;
  compatibility_fingerprints = sorted_items s.compatibility_fingerprints;
}

-- A sorted set has the members of the set.
pub contains-sorted_set :
    (xs : List String) (x : String) → contains x (sorted_set xs) ≡ contains x xs
contains-sorted_set xs x = contains-set_of (sorted xs) x ∙ contains-sorted x xs

all_of_contains :
    (p : String → Bool) (xs : List String)
    → ((x : String) → contains x xs ≡ true → p x ≡ true)
    → all p xs ≡ true
all_of_contains p [] h = refl
all_of_contains p (x ∷ xs) h =
    ground (arith, h x, str_eq_iff x x, all_of_contains p xs (λ y m. h y (ground (arith, m))))

contains_of_all :
    (p : String → Bool) (xs : List String) (x : String)
    → all p xs ≡ true
    → contains x xs ≡ true
    → p x ≡ true
contains_of_all p [] x h m = cc
contains_of_all p (y ∷ xs) x h m = elim (Bool-cases (str_eq x y)) [
  | inl same ↦ rw ((str_eq_iff x y).0 same) (ground arith)
  | inr other ↦ contains_of_all p xs x (ground arith) (rw other at m)
]

all-sorted_set :
    (p : String → Bool) (xs : List String) → all p xs ≡ true → all p (sorted_set xs) ≡ true
all-sorted_set p xs h =
    all_of_contains p (sorted_set xs)
      (λ x m. contains_of_all p xs x h (sym (contains-sorted_set xs x) ∙ m))

all-insert_item :
    (p : String × String → Bool) (k v : String) (d : Dict String)
    → all p (insert_item k v d) ≡ (p (k, v) && all p d)
unfolding insert_item
all-insert_item p k v [] = refl
all-insert_item p k v ((j, w) ∷ d) = ground (arith, all-insert_item p k v d)

all-sorted_items : (p : String × String → Bool) (d : Dict String) → all p (sorted_items d) ≡ all p d
unfolding sorted_items
all-sorted_items p [] = refl
all-sorted_items p ((k, v) ∷ d) =
    ground (arith, all-insert_item p k v (sorted_items d), all-sorted_items p d)

length-insert_item : (k v : String) (d : Dict String) → length (insert_item k v d) ≡ length d + 1
unfolding insert_item
length-insert_item k v [] = omega arith
length-insert_item k v ((j, w) ∷ d) = ground (arith, length-insert_item k v d)

length-sorted_items : (d : Dict String) → length (sorted_items d) ≡ length d
unfolding sorted_items
length-sorted_items [] = refl
length-sorted_items ((k, v) ∷ d) =
    ground (arith, length-insert_item k v (sorted_items d), length-sorted_items d)

state_ok-canonical : (s : WorkflowState) → state_ok s ≡ true → state_ok (canonical s) ≡ true
unfolding state_ok references_ok identity_ok
state_ok-canonical s h = ground (
  arith,
  all-sorted_set is_fingerprint s.evidence_fingerprints,
  all-sorted_set is_fingerprint s.gate_evidence_fingerprints,
  all-sorted_items compatibility_entry_ok s.compatibility_fingerprints,
  length-sorted_items s.compatibility_fingerprints,
)

lookup-insert_item :
    (j k v : String) (d : Dict String)
    → lookup k d ≡ none
    → lookup j (insert_item k v d) ≡ (if str_eq j k then some v else lookup j d)
unfolding insert_item
lookup-insert_item j k v [] h = refl
lookup-insert_item j k v ((i, w) ∷ d) h =
    ground (arith, str_eq_iff j k, str_eq_iff j i, str_eq_iff k i, lookup-insert_item j k v d)

count-keys-insert_item :
    (k j v : String) (d : Dict String)
    → count k (keys (insert_item j v d)) ≡ count k (keys ((j, v) ∷ d))
unfolding insert_item
count-keys-insert_item k j v [] = refl
count-keys-insert_item k j v ((i, w) ∷ d) = ground (arith, count-keys-insert_item k j v d)

keys-sorted_items :
    (k : String) (d : Dict String) → count k (keys (sorted_items d)) ≡ count k (keys d)
unfolding sorted_items
keys-sorted_items k [] = refl
keys-sorted_items k ((j, v) ∷ d) =
    ground (arith, count-keys-insert_item k j v (sorted_items d), keys-sorted_items k d)

-- No key stands twice, as in every Python dictionary.
abbrev pub IsDict : Dict String → Type 0
IsDict d = (k : String) → count k (keys d) ≤ 1

-- A sorted dictionary is the dictionary.
pub lookup-sorted_items :
    (k : String) (d : Dict String) → IsDict d → lookup k (sorted_items d) ≡ lookup k d
unfolding sorted_items
lookup-sorted_items k [] u = refl
lookup-sorted_items k ((j, v) ∷ d) u =
    let once : count j (keys d) ≡ 0 = ground (arith, u j, str_eq_iff j j) in
    lookup-insert_item k j v (sorted_items d)
      ((lookup-eq-none_iff j (sorted_items d)).1 (keys-sorted_items j d ∙ once))
    ∙ ground (arith, lookup-sorted_items k d (λ i. ground (arith, u i)))

-- The parts are read back.
read_status-value : (s : WorkflowStatus) → read_member statuses (string (status_value s)) ≡ ok s
read_status-value created = refl
read_status-value queued = refl
read_status-value running = refl
read_status-value succeeded = refl
read_status-value failed = refl
read_status-value closed = refl

read_stage-value : (g : WorkflowStage) → read_member stages (string (stage_value g)) ≡ ok g
read_stage-value WorkflowStage.initialize = refl
read_stage-value WorkflowStage.memory = refl
read_stage-value WorkflowStage.intent = refl
read_stage-value WorkflowStage.plan = refl
read_stage-value WorkflowStage.validate = refl
read_stage-value WorkflowStage.compile = refl
read_stage-value WorkflowStage.guard = refl
read_stage-value WorkflowStage.govern = refl
read_stage-value WorkflowStage.authorize = refl
read_stage-value WorkflowStage.execute = refl
read_stage-value WorkflowStage.protect = refl
read_stage-value WorkflowStage.persist = refl
read_stage-value WorkflowStage.complete = refl

read_texts-elements : (xs : List String) → read_all read_string (elements string xs) ≡ ok xs
unfolding read_all elements
read_texts-elements [] = refl
read_texts-elements (x ∷ xs) = rw (read_texts-elements xs) refl

read_budget-document :
    (b : WorkflowBudget) → budget_ok b ≡ true → read_budget (budget_document b) ≡ ok b
unfolding read_budget
read_budget-document b h = rw h refl

event_ok-canonical : (e : WorkflowEvent) → event_ok e ≡ true → event_ok (canonical_event e) ≡ true
unfolding event_ok
event_ok-canonical e h = rw (length-sorted_items e.metadata) h

module _ (iso : Iso) (now : ℕ) where
  read_event-document :
      (e : WorkflowEvent)
      → event_ok e ≡ true
      → read_event iso now (event_document iso e) ≡ ok (canonical_event e)
  unfolding read_event event_document
  read_event-document e h =
      rw
        (
          read_status-value e.from_status,
          read_status-value e.to_status,
          iso.parse-isoformat e.occurred_at,
          read_members-text_members read_string (λ t. refl) (sorted_items e.metadata),
          event_ok-canonical e h,
        )
        refl

  read_events-document :
      (es : List WorkflowEvent)
      → All (λ e. event_ok e ≡ true) es
      → read_all (read_event iso now) (elements (event_document iso) es)
        ≡ ok (map canonical_event es)
  read_events-document es h =
      read_all-elements (read_event iso now) (event_document iso) canonical_event es (
        All-map (λ e. event_ok e ≡ true)
          (λ e. read_event iso now (event_document iso e) ≡ ok (canonical_event e)) es
          read_event-document h)

  -- An optional text, stage or time.
  read_scope : (o : Option String) → read_optional read_string (optional string o) ≡ ok o
  read_scope none = refl
  read_scope (some t) = refl

  read_stage :
      (o : Option WorkflowStage)
      → read_optional (read_member stages) (optional (λ g. string (stage_value g)) o) ≡ ok o
  read_stage none = refl
  read_stage (some g) = rw (read_stage-value g) refl

  read_deadline :
      (o : Option ℕ)
      → read_optional (read_time iso now) (optional (λ t. string (iso.isoformat t)) o) ≡ ok o
  read_deadline none = refl
  read_deadline (some t) = rw (iso.parse-isoformat t) refl

  pub read_snapshot :
      (s : WorkflowState)
      → IsConstructed s
      → deserialize_snapshot iso now (serialize_snapshot iso s) ≡ ok (canonical s)
  unfolding deserialize_snapshot read_document read_state serialize_snapshot
  read_snapshot s c =
      rw
        (
          read_scope s.tenant_scope_fingerprint,
          read_status-value s.status,
          read_budget-document s.budget c.budget,
          read_events-document s.events c.events,
          read_texts-elements (sorted_set s.evidence_fingerprints),
          read_stage s.current_stage,
          read_texts-elements (sorted_set s.gate_evidence_fingerprints),
          read_members-text_members read_string (λ t. refl)
              (sorted_items s.compatibility_fingerprints),
          read_deadline s.deadline_at,
          set_of-set_of (sorted s.evidence_fingerprints),
          set_of-set_of (sorted s.gate_evidence_fingerprints),
          state_ok-canonical s c.state,
        )
        refl

  -- Of a constructed state, the snapshot is read back as that state with its sets and dictionaries in
  -- order: the sets have the same members and the compatibility fingerprints the same values.
  pub deserialize-serialize :
      (s : WorkflowState)
      → IsConstructed s
      → (deserialize_snapshot iso now (serialize_snapshot iso s) ≡ ok (canonical s))
        × ((x : String)
            → contains x (canonical s).evidence_fingerprints ≡ contains x s.evidence_fingerprints)
        × ((x : String)
            → contains x (canonical s).gate_evidence_fingerprints
              ≡ contains x s.gate_evidence_fingerprints)
        × ((k : String)
            → lookup k (canonical s).compatibility_fingerprints
              ≡ lookup k s.compatibility_fingerprints)
  deserialize-serialize s c = (
    read_snapshot s c,
    contains-sorted_set s.evidence_fingerprints,
    contains-sorted_set s.gate_evidence_fingerprints,
    λ k. lookup-sorted_items k s.compatibility_fingerprints c.compatibility,
  )
