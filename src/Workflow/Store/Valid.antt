-- ===== src/Workflow/Store/Valid.antt =====
-- The invariant of the store: its three dictionaries have the same keys, each once.
use nl2data_core.Common.{
  ℕ, ◌+◌, ◌≤◌, ◌≡◌, refl, none, [], ◌∷◌, String, ok, arith, str_eq, str_eq_iff, count,
  if◌then◌else◌,
}
use nl2data_core.Common.Dict.{
  Dict, lookup, has_key, insert, erase, keys, lookup-eq-none_iff, count-keys-erase,
}
use nl2data_core.Workflow.Models.{WorkflowState}
use nl2data_core.Workflow.Store.{Store, empty, create}

pub record IsValid (s : Store) : Type 0 where
  pub same_revisions : keys s.revisions ≡ keys s.states
  pub same_updated : keys s.updated_at ≡ keys s.states
  pub once : (k : String) → count k (keys s.states) ≤ 1

module _ {ℓ κ} {V : Type ℓ} {W : Type κ} where
  -- What happens to the keys does not depend on the values.
  pub keys-insert_same :
      (k : String) (v : V) (w : W) (d : Dict V) (e : Dict W)
      → keys d ≡ keys e
      → keys (insert k v d) ≡ keys (insert k w e)
  keys-insert_same k v w [] [] h = refl
  keys-insert_same k v w [] (y ∷ e) h = cc
  keys-insert_same k v w (x ∷ d) [] h = cc
  keys-insert_same k v w (x ∷ d) (y ∷ e) h = ground (arith, keys-insert_same k v w d e)

  pub keys-erase_same :
      (k : String) (d : Dict V) (e : Dict W) → keys d ≡ keys e → keys (erase k d) ≡ keys (erase k e)
  keys-erase_same k [] [] h = refl
  keys-erase_same k [] (y ∷ e) h = cc
  keys-erase_same k (x ∷ d) [] h = cc
  keys-erase_same k (x ∷ d) (y ∷ e) h = ground (arith, keys-erase_same k d e)

  pub has_key_same :
      (k : String) (d : Dict V) (e : Dict W) → keys d ≡ keys e → has_key k d ≡ has_key k e
  has_key_same k [] [] h = refl
  has_key_same k [] (y ∷ e) h = cc
  has_key_same k (x ∷ d) [] h = cc
  has_key_same k (x ∷ d) (y ∷ e) h = ground (arith, has_key_same k d e)

pub count-keys-insert {ℓ} :
    {V : Type ℓ} (j k : String) (v : V) (d : Dict V)
    → count j (keys (insert k v d)) ≡ (
        if has_key k d
        then count j (keys d)
        else (if str_eq j k then count j (keys d) + 1 else count j (keys d)))
count-keys-insert j k v [] = ground arith
count-keys-insert j k v ((i, w) ∷ d) =
    ground (arith, str_eq_iff j i, str_eq_iff k i, str_eq_iff j k, count-keys-insert j k v d)

insert-once {ℓ} :
    {V : Type ℓ} (j k : String) (v : V) (d : Dict V)
    → count j (keys d) ≤ 1
    → count j (keys (insert k v d)) ≤ 1
insert-once j k v d h =
    ground (arith, str_eq_iff j k, count-keys-insert j k v d, lookup-eq-none_iff k d)

erase-once {ℓ} :
    {V : Type ℓ} (j k : String) (d : Dict V) → count j (keys d) ≤ 1 → count j (keys (erase k d)) ≤ 1
erase-once j k d h = ground (arith, count-keys-erase j k d)

pub empty-IsValid : IsValid empty
empty-IsValid = record { same_revisions = refl; same_updated = refl; once = λ k. omega arith }

-- One write to all three dictionaries keeps the invariant.
pub insert-IsValid :
    (k : String) (state : WorkflowState) (revision now : ℕ) (s : Store)
    → IsValid s
    → IsValid (record {
      states = insert k state s.states;
      revisions = insert k revision s.revisions;
      updated_at = insert k now s.updated_at;
    })
insert-IsValid k state revision now s v = record {
  same_revisions = keys-insert_same k revision state s.revisions s.states v.same_revisions;
  same_updated = keys-insert_same k now state s.updated_at s.states v.same_updated;
  once = λ j. insert-once j k state s.states (v.once j);
}

pub erase-IsValid :
    (k : String) (s : Store)
    → IsValid s
    → IsValid (record {
      states = erase k s.states;
      revisions = erase k s.revisions;
      updated_at = erase k s.updated_at;
    })
erase-IsValid k s v = record {
  same_revisions = keys-erase_same k s.revisions s.states v.same_revisions;
  same_updated = keys-erase_same k s.updated_at s.states v.same_updated;
  once = λ j. erase-once j k s.states (v.once j);
}

-- What a successful `create` did.
pub create_lem :
    (now : ℕ) (state : WorkflowState) (s : Store) {t : Store}
    → create now state s ≡ ok t
    → (lookup state.workflow_id s.states ≡ none)
      × (t ≡ record {
        states = insert state.workflow_id state s.states;
        revisions = insert state.workflow_id 1 s.revisions;
        updated_at = insert state.workflow_id now s.updated_at;
      })
unfolding create
create_lem now state s h = ground arith

pub create-IsValid :
    (now : ℕ) (state : WorkflowState) (s : Store) {t : Store}
    → create now state s ≡ ok t
    → IsValid s
    → IsValid t
create-IsValid now state s h v =
    rw ((create_lem now state s h).1) (insert-IsValid state.workflow_id state 1 now s v)
