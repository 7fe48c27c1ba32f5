-- ===== src/Workflow/Store/Cleanup.antt =====
-- `cleanup` of `InMemoryStateStore` (workflow/store.py) on valid stores.
use nl2data_core.Common.{
  ℕ, ◌≤◌, ◌<◌, ◌≡◌, refl, ◌⊎◌, inl, inr, true, none, some, List, [], ◌∷◌, String, ok, arith, str_eq,
  str_eq_iff, count, count-take_le, length, length-take, take, min, suc, ◌+◌, ap, ◌∙◌, Bool, ◌&&◌,
  false, if◌then◌else◌, Option, Option-cases, Bool-cases, zero_or_pos, leb,
}
use nl2data_core.Common.Sort.{sorted, count-sorted, length-sorted}
use nl2data_core.Common.Dict.{
  Dict, lookup, has_key, erase, keys, lookup-eq-none_iff, lookup-erase_ne, lookup-erase_self,
  count-keys-erase, length-erase,
}
use nl2data_core.Workflow.Models.{WorkflowState, is_terminal}
use nl2data_core.Workflow.Store.{Store, removable_ids, delete_one, delete_all, cleanup}
use nl2data_core.Workflow.Store.Valid.{IsValid, has_key_same, erase-IsValid}

-- The condition of the generator in `cleanup`, of one key.
pub record IsRemovable (terminal_before : ℕ) (updated_at : Dict ℕ) (d : Dict WorkflowState)
    (k : String) : Type 0 where
  pub state : WorkflowState
  pub at : ℕ
  pub found : lookup k d ≡ some state
  pub ended : is_terminal state.status ≡ true
  pub stamped : lookup k updated_at ≡ some at
  pub old : at ≤ terminal_before

abbrev pub stamped_by : ℕ → Option ℕ → Bool
stamped_by terminal_before none = false
stamped_by terminal_before (some at) = leb at terminal_before

-- How many keys of `d` are of a workflow that ended by the given time.
abbrev pub count_ended : ℕ → Dict ℕ → Dict WorkflowState → ℕ
count_ended terminal_before updated_at [] = 0
count_ended terminal_before updated_at ((k, state) ∷ d) =
    if is_terminal state.status && stamped_by terminal_before (lookup k updated_at)
    then suc (count_ended terminal_before updated_at d)
    else count_ended terminal_before updated_at d

-- What the generator yields over `d`.
record Yields (terminal_before : ℕ) (updated_at : Dict ℕ) (d : Dict WorkflowState) : Type 0 where
  ids : List String
  yields : removable_ids terminal_before updated_at d ≡ ok ids
  counted : length ids ≡ count_ended terminal_before updated_at d
  at_most : (k : String) → count k ids ≤ count k (keys d)
  sound : (k : String) → 0 < count k ids → IsRemovable terminal_before updated_at d k

module _ (terminal_before : ℕ) (updated_at : Dict ℕ) where
  IsRemovable-cons :
      (j k : String) (w : WorkflowState) (d : Dict WorkflowState)
      → count k (keys ((j, w) ∷ d)) ≤ 1
      → IsRemovable terminal_before updated_at d k
      → IsRemovable terminal_before updated_at ((j, w) ∷ d) k
  IsRemovable-cons j k w d once r = record {
    state = r.state;
    at = r.at;
    found = ground (arith, lookup-eq-none_iff k d, r.found);
    ended = r.ended;
    stamped = r.stamped;
    old = r.old;
  }

  IsRemovable-head :
      (j k : String) (w : WorkflowState) (d : Dict WorkflowState) (at : ℕ)
      → str_eq k j ≡ true
      → is_terminal w.status ≡ true
      → lookup j updated_at ≡ some at
      → at ≤ terminal_before
      → IsRemovable terminal_before updated_at ((j, w) ∷ d) k
  IsRemovable-head j k w d at same ended found old = record {
    state = w;
    at = at;
    found = rw same;
    ended = ended;
    stamped = rw ((str_eq_iff k j).0 same) found;
    old = old;
  }

  removable_ids-Yields :
      (d : Dict WorkflowState)
      → ((k : String) → count k (keys d) ≤ 1)
      → ((k : String) → 0 < count k (keys d) → has_key k updated_at ≡ true)
      → Yields terminal_before updated_at d
  unfolding removable_ids
  removable_ids-Yields [] once stamped = record {
    ids = [];
    yields = refl;
    counted = refl;
    at_most = λ k. omega arith;
    sound = λ k h. absurd (omega arith);
  }
  removable_ids-Yields ((j, w) ∷ d) once stamped =
      let rest =
        removable_ids-Yields d (λ k. ground (arith, once k)) (λ k h. stamped k (ground arith)) in
      elim (Bool-cases (is_terminal w.status)) [
        | inr live ↦ record {
          ids = rest.ids;
          yields = rw live rest.yields;
          counted = ground (arith, live, rest.counted);
          at_most = λ k. ground (arith, rest.at_most k);
          sound = λ k h. IsRemovable-cons j k w d (once k) (rest.sound k h);
        }
        | inl ended ↦ elim (Option-cases (lookup j updated_at)) [
          | inl missing ↦ absurd (ground (arith, stamped j, str_eq_iff j j))
          | inr (at, found) ↦ elim (Bool-cases (leb at terminal_before)) [
            | inr young ↦ record {
              ids = rest.ids;
              yields = ground (arith, rest.yields);
              counted = rw (ended, found) (ground (arith, rest.counted));
              at_most = λ k. ground (arith, rest.at_most k);
              sound = λ k h. IsRemovable-cons j k w d (once k) (rest.sound k h);
            }
            | inl old ↦ record {
              ids = j ∷ rest.ids;
              yields = ground (arith, rest.yields);
              counted = rw (ended, found) (ground (arith, rest.counted));
              at_most = λ k. ground (arith, rest.at_most k);
              sound = λ k h. elim (Bool-cases (str_eq k j)) [
                | inl same ↦ IsRemovable-head j k w d at same ended found (ground arith)
                | inr other ↦ IsRemovable-cons j k w d (once k) (rest.sound k (rw other at h))
              ];
            }
          ]
        ]
      ]

-- The store after the keys of `ids` are deleted.
record Deletes (ids : List String) (s t : Store) : Type 0 where
  deletes : delete_all ids s ≡ ok t
  valid : IsValid t
  shrinks : length t.states + length ids ≡ length s.states
  gone : (k : String) → 0 < count k ids → lookup k t.states ≡ none
  kept : (k : String) → count k ids ≡ 0 → lookup k t.states ≡ lookup k s.states

abbrev without : String → Store → Store
without k s = record {
  states = erase k s.states;
  revisions = erase k s.revisions;
  updated_at = erase k s.updated_at;
}

delete_one_lem :
    (k : String) (s : Store)
    → IsValid s
    → 0 < count k (keys s.states)
    → delete_one k s ≡ ok (without k s)
unfolding delete_one
delete_one_lem k s v h = ground (
  arith,
  lookup-eq-none_iff k s.states,
  has_key_same k s.revisions s.states v.same_revisions,
  has_key_same k s.updated_at s.states v.same_updated,
)

Deletes-cons :
    (j : String) (ids : List String) (s t : Store)
    → IsValid s
    → 0 < count j (keys s.states)
    → Deletes ids (without j s) t
    → Deletes (j ∷ ids) s t
unfolding delete_all
Deletes-cons j ids s t v present rest = record {
  deletes = rw (delete_one_lem j s v present) rest.deletes;
  valid = rest.valid;
  shrinks = omega (
    arith,
    rest.shrinks,
    length-erase j s.states (ground (arith, present, lookup-eq-none_iff j s.states)),
  );
  gone = λ k h.
      ground
        (arith, str_eq_iff k j, rest.gone k, rest.kept k, lookup-erase_self j s.states (v.once j));
  kept = λ k h. ground (arith, str_eq_iff k j, rest.kept k, lookup-erase_ne j k s.states);
}

delete_all-Deletes :
    (ids : List String) (s : Store)
    → IsValid s
    → ((k : String) → count k ids ≤ count k (keys s.states))
    → (t : Store) × Deletes ids s t
unfolding delete_all
delete_all-Deletes [] s v below = (
  s,
  record {
    deletes = refl;
    valid = v;
    shrinks = omega arith;
    gone = λ k h. absurd (omega arith);
    kept = λ k h. refl;
  },
)
delete_all-Deletes (j ∷ ids) s v below =
    let fewer : (k : String) → count k ids ≤ count k (keys (erase j s.states)) =
      λ k. ground (arith, below k, count-keys-erase k j s.states) in
    let (t, rest) = delete_all-Deletes ids (without j s) (erase-IsValid j s v) fewer in
    (t, Deletes-cons j ids s t v (ground (arith, below j, str_eq_iff j j)) rest)

-- What `cleanup` did with a limit of at least one.
pub record Cleaned (terminal_before max_records : ℕ) (s t : Store) (removed : ℕ) : Type 0 where
  pub within : removed ≡ min max_records (count_ended terminal_before s.updated_at s.states)
  pub shrinks : length t.states + removed ≡ length s.states
  pub valid : IsValid t
  pub kept_or_ended :
      (k : String)
      → (lookup k t.states ≡ lookup k s.states)
        ⊎ ((lookup k t.states ≡ none) × IsRemovable terminal_before s.updated_at s.states k)

Cleaned-Deletes :
    (terminal_before max_records : ℕ) (s t : Store)
    (y : Yields terminal_before s.updated_at s.states)
    → Deletes (take max_records (sorted y.ids)) s t
    → Cleaned terminal_before max_records s t (length (take max_records (sorted y.ids)))
Cleaned-Deletes terminal_before max_records s t y d = record {
  within =
      length-take max_records (sorted y.ids)
      ∙ ap (min max_records) (length-sorted y.ids ∙ y.counted);
  shrinks = d.shrinks;
  valid = d.valid;
  kept_or_ended = λ k. elim (zero_or_pos (count k (take max_records (sorted y.ids)))) [
    | inl untouched ↦ inl (d.kept k untouched)
    | inr deleted ↦ inr (
      d.gone k deleted,
      y.sound k (omega (arith, count-take_le k max_records (sorted y.ids), count-sorted k y.ids)),
    )
  ];
}

stamped_of_IsValid :
    (s : Store)
    → IsValid s
    → (k : String) → 0 < count k (keys s.states)
    → has_key k s.updated_at ≡ true
stamped_of_IsValid s v k h =
    ground
      (arith, has_key_same k s.updated_at s.states v.same_updated, lookup-eq-none_iff k s.states)

cleanup_runs :
    (terminal_before expired_before max_records : ℕ) (s t : Store)
    → 1 ≤ max_records
    → (y : Yields terminal_before s.updated_at s.states)
    → Deletes (take max_records (sorted y.ids)) s t
    → cleanup terminal_before expired_before max_records s
      ≡ ok (length (take max_records (sorted y.ids)), t)
unfolding cleanup
cleanup_runs terminal_before expired_before max_records s t positive y d =
    ground (arith, y.yields, d.deletes)

-- On a valid store `cleanup` succeeds with any limit of at least one: it removes as many records as
-- there are of workflows that had ended by the given time, but at most the limit, and returns their
-- number. Each that it removes is of such a workflow, and every other record is as before.
pub cleanup-Cleaned :
    (terminal_before expired_before max_records : ℕ) (s : Store)
    → IsValid s
    → 1 ≤ max_records
    → (removed : ℕ) × (t : Store) × (cleanup terminal_before expired_before max_records s
        ≡ ok (removed, t))
      × Cleaned terminal_before max_records s t removed
unfolding cleanup
cleanup-Cleaned terminal_before expired_before max_records s v positive =
    let y =
      removable_ids-Yields terminal_before s.updated_at s.states v.once (stamped_of_IsValid s v) in
    let (t, d) = delete_all-Deletes (take max_records (sorted y.ids)) s v (λ k.
      omega
        (arith, count-take_le k max_records (sorted y.ids), count-sorted k y.ids, y.at_most k)) in
    (
      length (take max_records (sorted y.ids)),
      t,
      cleanup_runs terminal_before expired_before max_records s t positive y d,
      Cleaned-Deletes terminal_before max_records s t y d,
    )
