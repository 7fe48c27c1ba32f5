-- ===== src/Workflow/Store/Access.antt =====
-- Reading and compare-and-set: what `update` did when it succeeded, that it never meets a missing
-- key, that two writers cannot both win, and what other scopes and workflows see.
use nl2data_core.Common.{
  ℕ, ◌+◌, ◌≡◌, refl, ◌≢◌, Option-cases, true, false, Option, none, some, ◌⊎◌, inl, inr, String, ok,
  err, arith, str_eq_iff, opt_eq_iff,
}
use nl2data_core.Common.Dict.{lookup, insert, lookup-insert, lookup-insert_self}
use nl2data_core.Workflow.Models.{WorkflowStatus, WorkflowState, is_terminal, status_eq_iff}
use nl2data_core.Workflow.Store.{
  Store, key_error, get, get_revision, check_current, check_version, write, update,
}
use nl2data_core.Workflow.Store.Valid.{IsValid, has_key_same, insert-IsValid}

-- What holds of the stored state, and of the store that `update` leaves.
pub record Updated (now : ℕ) (id : String) (expected : WorkflowStatus) (state : WorkflowState)
    (version : Option ℕ) (scope : Option String) (s t : Store) : Type 0 where
  pub current : WorkflowState
  pub revision : ℕ
  pub found : lookup id s.states ≡ some current
  pub counted : lookup id s.revisions ≡ some revision
  pub in_scope : current.tenant_scope_fingerprint ≡ scope
  pub keeps_scope : state.tenant_scope_fingerprint ≡ scope
  pub expects : current.status ≡ expected
  pub keeps_terminal : is_terminal current.status ≡ true → state.status ≡ current.status
  pub versioned : (v : ℕ) → version ≡ some v → revision ≡ v
  pub written : t ≡ record {
    states = insert id state s.states;
    revisions = insert id (revision + 1) s.revisions;
    updated_at = insert id now s.updated_at;
  }

-- What the tests of `update` establish.
pub check_current_lem :
    (id : String) (current : WorkflowState) (expected : WorkflowStatus) (state : WorkflowState)
    (scope : Option String)
    → check_current id current expected state scope ≡ ok tt
    → (current.tenant_scope_fingerprint ≡ scope)
      × (state.tenant_scope_fingerprint ≡ scope)
      × (current.status ≡ expected)
      × (is_terminal current.status ≡ true → state.status ≡ current.status)
unfolding check_current
check_current_lem id current expected state scope h = (
  ground (arith, opt_eq_iff current.tenant_scope_fingerprint scope),
  ground (
    arith,
    opt_eq_iff current.tenant_scope_fingerprint scope,
    opt_eq_iff current.tenant_scope_fingerprint state.tenant_scope_fingerprint,
  ),
  (status_eq_iff current.status expected).0 (ground arith),
  λ e. (status_eq_iff state.status current.status).0 (ground arith),
)

check_version_lem :
    (id : String) (version : Option ℕ) (s : Store) {revision : ℕ}
    → lookup id s.revisions ≡ some revision
    → check_version id version s ≡ ok tt
    → (v : ℕ) → version ≡ some v
    → revision ≡ v
unfolding check_version
check_version_lem id none s counted h v e = cc
check_version_lem id (some w) s counted h v e = ground arith

write_lem :
    (now : ℕ) (id : String) (state : WorkflowState) (s : Store) {t : Store}
    → write now id state s ≡ ok t
    → (revision : ℕ) × (lookup id s.revisions ≡ some revision)
      × (t ≡ record {
        states = insert id state s.states;
        revisions = insert id (revision + 1) s.revisions;
        updated_at = insert id now s.updated_at;
      })
unfolding write
write_lem now id state s h = elim (Option-cases (lookup id s.revisions)) [
  | inl uncounted ↦ absurd (ground arith)
  | inr (revision, counted) ↦ (revision, counted, ground arith)
]

module _ (now : ℕ) (id : String) (expected : WorkflowStatus) (state : WorkflowState)
    (version : Option ℕ) (scope : Option String) (s : Store) where
  Updated_of_parts :
      {t : Store} (current : WorkflowState)
      → lookup id s.states ≡ some current
      → check_current id current expected state scope ≡ ok tt
      → check_version id version s ≡ ok tt
      → write now id state s ≡ ok t
      → Updated now id expected state version scope s t
  Updated_of_parts current found checked fresh wrote =
      let (in_scope, keeps_scope, expects, keeps_terminal) =
        check_current_lem id current expected state scope checked in
      let (revision, counted, written) = write_lem now id state s wrote in
      record {
        current = current;
        revision = revision;
        found = found;
        counted = counted;
        in_scope = in_scope;
        keeps_scope = keeps_scope;
        expects = expects;
        keeps_terminal = keeps_terminal;
        versioned = check_version_lem id version s counted fresh;
        written = written;
      }

  pub update-Updated :
      {t : Store}
      → update now id expected state version scope s ≡ ok t
      → Updated now id expected state version scope s t
  unfolding update
  update-Updated h = elim (Option-cases (lookup id s.states)) [
    | inl missing ↦ absurd (ground arith)
    | inr (current, found) ↦
        Updated_of_parts current found (ground arith) (ground arith) (ground arith)
  ]

  -- A successful `update` keeps the invariant of the store.
  pub update-IsValid :
      {t : Store} → update now id expected state version scope s ≡ ok t → IsValid s → IsValid t
  update-IsValid h v =
      let u = update-Updated h in rw u.written (insert-IsValid id state (u.revision + 1) now s v)

  -- On a valid store `update` never meets a missing key, so no write is left half done.
  pub update-ne-key_error :
      (k : String) → IsValid s → update now id expected state version scope s ≢ err (key_error k)
  unfolding update check_current check_version write
  update-ne-key_error k v h = elim (Option-cases (lookup id s.states)) [
    | inl missing ↦ ground arith
    | inr (current, found) ↦ ground (arith, has_key_same id s.revisions s.states v.same_revisions)
  ]

  -- The update that the stored state, its scope, its status and its revision allow goes through.
  pub update-succeeds :
      {current : WorkflowState} {revision : ℕ}
      → lookup id s.states ≡ some current
      → lookup id s.revisions ≡ some revision
      → current.tenant_scope_fingerprint ≡ scope
      → state.tenant_scope_fingerprint ≡ scope
      → current.status ≡ expected
      → (is_terminal current.status ≡ false) ⊎ (state.status ≡ current.status)
      → (version ≡ none) ⊎ (version ≡ some revision)
      → update now id expected state version scope s
        ≡ ok (record {
          states = insert id state s.states;
          revisions = insert id (revision + 1) s.revisions;
          updated_at = insert id now s.updated_at;
        })
  unfolding update check_current check_version write
  update-succeeds {current} {revision} found counted here keeps expects live fresh = ground (
    arith,
    opt_eq_iff current.tenant_scope_fingerprint scope,
    opt_eq_iff current.tenant_scope_fingerprint state.tenant_scope_fingerprint,
    status_eq_iff current.status expected,
    status_eq_iff state.status current.status,
  )

  module _ {t : Store} (h : update now id expected state version scope s ≡ ok t) where
    -- Every other workflow is read as before, in every scope.
    pub get-update_ne : (j : String) (sc : Option String) → j ≢ id → get j sc t ≡ get j sc s
    unfolding get
    get-update_ne j sc ne =
        let u = update-Updated h in
        rw u.written (rw lookup-insert (ground (arith, str_eq_iff id j)))

    -- In every other scope, every workflow is read as before.
    pub get-update_other_scope :
        (j : String) (sc : Option String) → sc ≢ scope → get j sc t ≡ get j sc s
    unfolding get
    get-update_other_scope j sc ne =
        let u = update-Updated h in
        rw u.written (
          rw lookup-insert (
            ground (
              arith,
              str_eq_iff id j,
              opt_eq_iff u.current.tenant_scope_fingerprint sc,
              opt_eq_iff state.tenant_scope_fingerprint sc,
              u.found,
              u.in_scope,
              u.keeps_scope,
            )))

    lookup-states_self : lookup id t.states ≡ some state
    lookup-states_self =
        let u = update-Updated h in rw u.written (lookup-insert_self id state s.states)

    lookup-revisions_self : lookup id t.revisions ≡ some ((update-Updated h).revision + 1)
    lookup-revisions_self =
        let u = update-Updated h in
        rw u.written (lookup-insert_self id (u.revision + 1) s.revisions)

    -- In its own scope the workflow reads as written, one revision on.
    pub get-update_self :
        (get id scope t ≡ some state)
        × ((r : ℕ) × (get_revision id scope s ≡ ok (some r))
            × (get_revision id scope t ≡ ok (some (r + 1))))
    unfolding get get_revision
    get-update_self =
        let u = update-Updated h in
        let reads = lookup-states_self in
        let counts = lookup-revisions_self in
        (
          ground (arith, opt_eq_iff state.tenant_scope_fingerprint scope, u.keeps_scope, reads),
          (
            u.revision,
            ground (
              arith,
              opt_eq_iff u.current.tenant_scope_fingerprint scope,
              u.in_scope,
              u.found,
              u.counted,
            ),
            ground (
              arith,
              opt_eq_iff state.tenant_scope_fingerprint scope,
              u.keeps_scope,
              reads,
              counts,
            ),
          ),
        )

-- Of two writers that read the same revision, the second is refused, whatever else it asks.
pub update_stale :
    (now now' v : ℕ) (id : String) (expected expected' : WorkflowStatus)
    (state state' : WorkflowState) (scope scope' : Option String) (s : Store) {t u : Store}
    → update now id expected state (some v) scope s ≡ ok t
    → update now' id expected' state' (some v) scope' t ≢ ok u
update_stale now now' v id expected expected' state state' scope scope' s {t} h k =
    let first = update-Updated now id expected state (some v) scope s h in
    let second = update-Updated now' id expected' state' (some v) scope' t k in
    let counts : lookup id t.revisions ≡ some (first.revision + 1) =
      rw first.written (lookup-insert_self id (first.revision + 1) s.revisions) in
    ground (arith, first.versioned v refl, second.versioned v refl, second.counted, counts)
