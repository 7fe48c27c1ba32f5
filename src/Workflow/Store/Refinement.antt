-- ===== src/Workflow/Store/Refinement.antt =====
-- `update` of `InMemoryStateStore` (workflow/store.py) against the contract of the state stores.
use nl2data_core.Common.{
  ℕ, ◌+◌, ◌≡◌, refl, sym, ap, subst, ◌∙◌, inl, inr, Bool-cases, Option-cases, Bool, true, false,
  ◌&&◌, Option, none, some, String, Result, ok, err, ◌>>◌, arith, str_eq, str_eq_iff, opt_eq,
  opt_eq_iff, if◌then◌else◌, is_some,
}
use nl2data_core.Common.Dict.{Dict, lookup, insert, lookup-insert, keys}
use nl2data_core.Workflow.Models.{WorkflowStatus, WorkflowState}
use nl2data_core.Workflow.Contract.{
  Entry, ErrorClass, workflow_state_error, workflow_transition_error, key_error, value_error,
  check_entry, update_entry, Implements,
}
use nl2data_core.Workflow.Store.{
  Store, StoreError, already_exists, not_found, scope_mismatch, state_scope_mismatch,
  terminal_status, status_changed, version_changed, check_current, check_version, write, update,
}
use nl2data_core.Workflow.Store.Valid.{IsValid, has_key_same}
use nl2data_core.Workflow.Store.Access.{check_current_lem}

-- The class of what is raised.
abbrev pub error_class : StoreError → ErrorClass
error_class (already_exists id) = workflow_state_error
error_class (not_found id) = workflow_state_error
error_class (scope_mismatch id) = workflow_state_error
error_class (state_scope_mismatch id) = workflow_state_error
error_class (terminal_status from to) = workflow_transition_error
error_class (status_changed id s) = workflow_state_error
error_class (version_changed id v r) = workflow_state_error
error_class StoreError.value_error = value_error
error_class (StoreError.key_error k) = key_error

-- What the three dictionaries hold at one key, as one scope sees it.
abbrev entry_at : Option String → Option WorkflowState → Option ℕ → Option ℕ → Option Entry
entry_at scope (some state) (some revision) (some updated_at) =
    if opt_eq state.tenant_scope_fingerprint scope
    then some (record { state = state; revision = revision; updated_at = updated_at })
    else none
entry_at scope _ _ _ = none

abbrev pub entry : Option String → String → Store → Option Entry
entry scope id s =
    entry_at scope (lookup id s.states) (lookup id s.revisions) (lookup id s.updated_at)

abbrev classed : Result StoreError (Unit {0}) → Result ErrorClass (Unit {0})
classed (ok t) = ok t
classed (err e) = err (error_class e)

-- The tests of `update` in the scope of the stored state are those of the contract.
checks-check_entry :
    (id : String) (current : WorkflowState) (expected : WorkflowStatus) (state : WorkflowState)
    (version : Option ℕ) (scope : Option String) (s : Store) (revision updated_at : ℕ)
    → opt_eq current.tenant_scope_fingerprint scope ≡ true
    → lookup id s.revisions ≡ some revision
    → classed (check_current id current expected state scope >> check_version id version s)
      ≡ check_entry expected state version
          (record { state = current; revision = revision; updated_at = updated_at })
unfolding check_current check_version
checks-check_entry id current expected state none scope s revision updated_at same counted =
    rw same (ground arith)
checks-check_entry id current expected state (some v) scope s revision updated_at same counted =
    ground (arith, same, counted)

first_ok : (m k : Result StoreError (Unit {0})) → (m >> k) ≡ ok tt → m ≡ ok tt
first_ok (ok _) k h = refl
first_ok (err e) k h = cc

>>_assoc :
    (m k : Result StoreError (Unit {0})) (r : Result StoreError Store)
    → (m >> (k >> r)) ≡ ((m >> k) >> r)
>>_assoc (ok _) k r = refl
>>_assoc (err e) k r = refl

decided :
    (id : String) (scope : Option String) (s after : Store) (new : Entry)
    (m : Result StoreError (Unit {0})) (n : Result ErrorClass (Unit {0}))
    → classed m ≡ n
    → (m ≡ ok tt → Implements entry error_class scope id s (ok after) (ok new))
    → Implements entry error_class scope id s (m >> ok after) (n >> ok new)
decided id scope s after new (ok _) n same base =
    subst (λ x. Implements entry error_class scope id s (ok after) (x >> ok new)) same (base refl)
decided id scope s after new (err e) n same base =
    subst (λ x. Implements entry error_class scope id s (err e) (x >> ok new)) same refl

abbrev written : ℕ → String → WorkflowState → ℕ → Store → Store
written now id state revision s = record {
  states = insert id state s.states;
  revisions = insert id revision s.revisions;
  updated_at = insert id now s.updated_at;
}

hidden :
    (scope : Option String) (current : WorkflowState) (revision updated_at : Option ℕ)
    → opt_eq current.tenant_scope_fingerprint scope ≡ false
    → entry_at scope (some current) revision updated_at ≡ none
hidden scope current none updated_at h = refl
hidden scope current (some r) none h = refl
hidden scope current (some r) (some t) h = rw h refl

opt_eq_comm : (a b : Option String) → opt_eq a b ≡ opt_eq b a
opt_eq_comm a b = elim (Bool-cases (opt_eq a b)) [
  | inl same ↦ same ∙ sym ((opt_eq_iff b a).1 (sym ((opt_eq_iff a b).0 same)))
  | inr apart ↦ elim (Bool-cases (opt_eq b a)) [
    | inr other ↦ apart ∙ sym other
    | inl same ↦ cc ((opt_eq_iff a b).1 (sym ((opt_eq_iff b a).0 same)))
  ]
]

-- What is seen at the key that was written, and at the others.
seen :
    (now : ℕ) (current state : WorkflowState) (scope other : Option String) (revision : ℕ)
    (b : Bool) (o : Option WorkflowState) (r u : Option ℕ)
    → current.tenant_scope_fingerprint ≡ scope
    → state.tenant_scope_fingerprint ≡ scope
    → (b ≡ true → o ≡ some current)
    → entry_at other
        (if b then some state else o)
        (if b then some revision else r)
        (if b then some now else u)
      ≡ (if opt_eq other scope && b
          then some (record { state = state; revision = revision; updated_at = now })
          else entry_at other o r u)
seen now current state scope other revision false o r u old new h =
    elim (Bool-cases (opt_eq other scope)) [ inl x ↦ rw x refl | inr x ↦ rw x refl ]
seen now current state scope other revision true o r u old new h =
    elim (Bool-cases (opt_eq other scope)) [
      | inl x ↦ rw (x, ap (λ t. opt_eq t other) new ∙ opt_eq_comm scope other ∙ x) refl
      | inr x ↦
          rw (h refl, x, ap (λ t. opt_eq t other) new ∙ opt_eq_comm scope other ∙ x)
            (sym (
              hidden other current r u
                (ap (λ t. opt_eq t other) old ∙ opt_eq_comm scope other ∙ x)))
    ]

str_eq_comm : (a b : String) → str_eq a b ≡ str_eq b a
str_eq_comm a b = ground (arith, str_eq_iff a b, str_eq_iff b a)

-- A write in the scope of the stored state changes the one entry.
entry-written :
    (now : ℕ) (id : String) (current state : WorkflowState) (scope : Option String) (revision : ℕ)
    (s : Store)
    → lookup id s.states ≡ some current
    → current.tenant_scope_fingerprint ≡ scope
    → state.tenant_scope_fingerprint ≡ scope
    → (other : Option String) (j : String)
    → entry other j (written now id state revision s) ≡ (
        if opt_eq other scope && str_eq j id
        then some (record { state = state; revision = revision; updated_at = now })
        else entry other j s)
entry-written now id current state scope revision s found old new other j =
    rw
      (
        lookup-insert id j state s.states,
        lookup-insert id j revision s.revisions,
        lookup-insert id j now s.updated_at,
        str_eq_comm id j,
      )
      (seen now current state scope other revision (str_eq j id) (lookup j s.states)
        (lookup j s.revisions) (lookup j s.updated_at) old new
        (λ same. ap (λ i. lookup i s.states) ((str_eq_iff j id).0 same) ∙ found))

-- The keys of a valid store are those of all three dictionaries.
keyed :
    {V W : Type 0} (k : String) (v : V) (d : Dict V) (e : Dict W)
    → keys e ≡ keys d
    → lookup k d ≡ some v
    → (w : W) × (lookup k e ≡ some w)
keyed k v d e same h = elim (Option-cases (lookup k e)) [
  | inl absent ↦ cc (ap is_some absent, ap is_some h, has_key_same k e d same)
  | inr there ↦ there
]

module _ (now : ℕ) (id : String) (expected : WorkflowStatus) (state : WorkflowState)
    (version : Option ℕ) (scope : Option String) (s : Store) where
  abbrev AsPromised : Result StoreError Store → Option Entry → Type 0
  AsPromised m e =
      Implements entry error_class scope id s m (update_entry now expected state version e)

  -- The stored state is in another scope.
  refused :
      (current : WorkflowState)
      → opt_eq current.tenant_scope_fingerprint scope ≡ false
      → AsPromised
          (check_current id current expected state scope
            >> (check_version id version s >> write now id state s))
          none
  unfolding check_current update_entry
  refused current apart = rw apart refl

  allowed :
      (current : WorkflowState) (revision updated_at : ℕ)
      → lookup id s.states ≡ some current
      → lookup id s.revisions ≡ some revision
      → opt_eq current.tenant_scope_fingerprint scope ≡ true
      → AsPromised
          ((check_current id current expected state scope >> check_version id version s)
            >> ok (written now id state (revision + 1) s))
          (some (record { state = current; revision = revision; updated_at = updated_at }))
  unfolding update_entry
  allowed current revision updated_at found counted same =
      decided id scope s (written now id state (revision + 1) s)
        (record { state = state; revision = revision + 1; updated_at = now })
        (check_current id current expected state scope >> check_version id version s) _
        (checks-check_entry id current expected state version scope s revision updated_at same
          counted)
        (λ passed.
          let checked = check_current_lem id current expected state scope (
            first_ok (check_current id current expected state scope) (check_version id version s)
              passed) in
          entry-written now id current state scope (revision + 1) s found checked.0 checked.1)

  write-written :
      (revision : ℕ)
      → lookup id s.revisions ≡ some revision
      → write now id state s ≡ ok (written now id state (revision + 1) s)
  unfolding write
  write-written revision counted = ground (arith, counted)

  abbrev after_lookup : Option WorkflowState → Result StoreError Store
  after_lookup o = elim o [
    | none ↦ err (not_found id)
    | some current ↦
        (check_current id current expected state scope
          >> (check_version id version s >> write now id state s))
  ]

  missing : AsPromised (err (not_found id)) none
  unfolding update_entry
  missing = refl

  in_scope :
      (current : WorkflowState) (revision updated_at : ℕ)
      → lookup id s.states ≡ some current
      → lookup id s.revisions ≡ some revision
      → AsPromised
          (check_current id current expected state scope
            >> (check_version id version s >> write now id state s))
          (entry_at scope (some current) (some revision) (some updated_at))
  in_scope current revision updated_at found counted =
      elim (Bool-cases (opt_eq current.tenant_scope_fingerprint scope)) [
        | inr apart ↦ rw apart (refused current apart)
        | inl same ↦ rw same (
            subst
              (λ m.
                AsPromised m
                  (some (record { state = current; revision = revision; updated_at = updated_at })))
              (sym (
                >>_assoc (check_current id current expected state scope)
                  (check_version id version s) (write now id state s)))
              (subst
                (λ w.
                  AsPromised
                    ((check_current id current expected state scope >> check_version id version s)
                      >> w)
                    (some
                      (record { state = current; revision = revision; updated_at = updated_at })))
                (sym (write-written revision counted))
                (allowed current revision updated_at found counted same)))
      ]

  -- On a valid store `update` does to the entry of the workflow what the contract says, raises an
  -- exception of the class that it says, and changes no other entry.
  pub update-Implements_contract :
      IsValid s → AsPromised (update now id expected state version scope s) (entry scope id s)
  unfolding update
  update-Implements_contract v = elim (Option-cases (lookup id s.states)) [
    | inl absent ↦
        subst
          (λ o.
            AsPromised (after_lookup o)
              (entry_at scope o (lookup id s.revisions) (lookup id s.updated_at)))
          (sym absent) missing
    | inr (current, found) ↦
        let (revision, counted) = keyed id current s.states s.revisions v.same_revisions found in
        let (at, stamped) = keyed id current s.states s.updated_at v.same_updated found in
        subst
          (λ o.
            AsPromised (after_lookup o)
              (entry_at scope o (lookup id s.revisions) (lookup id s.updated_at)))
          (sym found) (rw (counted, stamped) (in_scope current revision at found counted))
  ]
