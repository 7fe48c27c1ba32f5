-- ===== src/Workflow/Runner/Progress.antt =====
-- When the steps of the runner go through.
use nl2data_core.Common.{
  ℕ, suc, ◌+◌, ◌≤◌, ◌≡◌, refl, ap, ◌∙◌, true, false, none, some, Option, List, String, Result, ok,
  err, ◌>>=◌, ◌==◌, arith, str_eq_iff, opt_eq_iff, any,
}
use nl2data_core.Common.Text.{is_identifier}
use nl2data_core.Workflow.Models.{
  succeeded, failed, closed, is_terminal, status_eq, status_eq_iff, WorkflowStatus, created, queued,
  running, WorkflowState, scope_ok,
}
use nl2data_core.Workflow.Transitions.{allowed_transitions}
use nl2data_core.Workflow.Transitions.Liveness.{
  moved, HasRoom, Affords, transition-moves, HasRoom-moved,
}
use nl2data_core.Workflow.Snapshot.{Iso}
use nl2data_core.Workflow.Sqlite.{
  StateRow, SqlError, select_state, update_states, updated_row, check_row, update_selected,
  get_revision, update,
}
use nl2data_core.Workflow.Sqlite.Keys.{namespace_of, namespace-ok, select_state-update}
use nl2data_core.Workflow.Snapshot.RoundTrip.{IsConstructed}
use nl2data_core.Workflow.Sqlite.Refinement.{IsTable}
use nl2data_core.Workflow.Runner.Advance.{Advanced, advance_to_running-Advanced}
use nl2data_core.Workflow.Runner.{Tick, RunnerError, not_resumable, step, advance_to_running}

module _ (iso : Iso) (workflow_id : String) (scope : Option String) where
  -- The table has a row of the workflow, in the status and the scope of the state.
  pub record Holds (state : WorkflowState) (rows : List StateRow) : Type 0 where
    pub row : StateRow
    pub found : select_state (namespace_of scope) workflow_id rows ≡ some row
    pub same_status : row.status ≡ state.status
    pub same_scope : row.tenant_scope_fingerprint ≡ state.tenant_scope_fingerprint

  check_row-passes :
      (r : StateRow) (state next : WorkflowState)
      → r.status ≡ state.status
      → r.tenant_scope_fingerprint ≡ next.tenant_scope_fingerprint
      → is_terminal state.status ≡ false
      → check_row iso workflow_id r state.status next (some r.revision) ≡ ok tt
  unfolding check_row
  check_row-passes r state next status scoped live =
      rw
        (
          (opt_eq_iff r.tenant_scope_fingerprint next.tenant_scope_fingerprint).1 scoped,
          status,
          live,
          (status_eq_iff state.status state.status).1 refl,
          same_number r.revision,
        )
        refl
    where
      same_number : (n : ℕ) → (n == n) ≡ true
      same_number n = ground arith

  -- The table after a step.
  abbrev saved_rows : Tick → WorkflowState → List StateRow → List StateRow
  saved_rows tick next rows =
      update_states (namespace_of scope) workflow_id (updated_row iso tick.saved_at next) rows

  get_revision-found :
      (r : StateRow) (rows : List StateRow)
      → scope_ok scope ≡ true
      → select_state (namespace_of scope) workflow_id rows ≡ some r
      → get_revision workflow_id scope rows ≡ ok (some r.revision)
  unfolding get_revision
  get_revision-found r rows k found =
      ap (λ m. m >>= λ ns. revision_of (select_state ns workflow_id rows)) (namespace-ok scope k)
      ∙ ap revision_of found
    where
      revision_of : Option StateRow → Result SqlError (Option ℕ)
      revision_of o = elim o [ none ↦ ok none | some x ↦ ok (some x.revision) ]

  update-found :
      (tick : Tick) (r : StateRow) (state next : WorkflowState) (rows : List StateRow)
      → scope_ok scope ≡ true
      → select_state (namespace_of scope) workflow_id rows ≡ some r
      → check_row iso workflow_id r state.status next (some r.revision) ≡ ok tt
      → update iso tick.saved_at workflow_id state.status next (some r.revision) scope rows
        ≡ ok (saved_rows tick next rows)
  unfolding update update_selected
  update-found tick r state next rows k found passes =
      ap
        (λ m. m >>= λ ns.
          update_selected iso tick.saved_at workflow_id state.status next (some r.revision) ns
            (select_state ns workflow_id rows) rows)
        (namespace-ok scope k)
      ∙ rw (found, passes) refl

  step-succeeds :
      (tick : Tick) (target : WorkflowStatus) (state : WorkflowState) (rows : List StateRow) {n : ℕ}
      → scope_ok scope ≡ true
      → Holds state rows
      → is_identifier tick.event_id ≡ true
      → HasRoom (suc n) state
      → is_terminal state.status ≡ false
      → any (status_eq target) (allowed_transitions state.status) ≡ true
      → Affords state target
      → step iso workflow_id scope tick target state rows
        ≡ ok (
          moved tick.moved_at tick.event_id state target,
          saved_rows tick (moved tick.moved_at tick.event_id state target) rows,
        )
  unfolding step
  step-succeeds tick target state rows k h named room live allowed a =
      let next = moved tick.moved_at tick.event_id state target in
      rw
        (
          get_revision-found h.row rows k h.found,
          transition-moves tick.moved_at tick.event_id state target named room live allowed a,
          update-found tick h.row state next rows k h.found
              (check_row-passes h.row state next h.same_status h.same_scope live),
        )
        refl

  Holds-saved :
      (tick : Tick) (next state : WorkflowState) (rows : List StateRow)
      → Holds state rows
      → Holds next (saved_rows tick next rows)
  Holds-saved tick next state rows h = record {
    row = updated_row iso tick.saved_at next h.row;
    found =
        select_state-update (namespace_of scope) workflow_id (namespace_of scope) workflow_id
          (updated_row iso tick.saved_at next) rows (λ r. refl) (λ r. refl)
        ∙ rw
            (
              h.found,
              (str_eq_iff (namespace_of scope) (namespace_of scope)).1 refl,
              (str_eq_iff workflow_id workflow_id).1 refl,
            )
            refl;
    same_status = refl;
    same_scope = refl;
  }

  -- The number of steps from a status to `running`.
  abbrev pub steps_left : WorkflowStatus → ℕ
  steps_left created = 2
  steps_left queued = 1
  steps_left running = 2
  steps_left _ = 0

  module _ (first second : Tick) (rows : List StateRow) (k : scope_ok scope ≡ true)
      (first_named : is_identifier first.event_id ≡ true)
      (second_named : is_identifier second.event_id ≡ true) where
    abbrev Runs : WorkflowState → Type 0
    Runs state =
        (next : WorkflowState) × (after : List StateRow) × (advance_to_running iso workflow_id scope
            first second state rows
          ≡ ok (next, after))

    through_queue :
        (state : WorkflowState)
        → Holds state rows
        → is_terminal state.status ≡ false
        → any (status_eq queued) (allowed_transitions state.status) ≡ true
        → HasRoom 2 state
        → state.attempts + 1 ≤ state.budget.max_attempts
        → (next : WorkflowState) × (after : List StateRow) × ((step iso workflow_id scope first
                queued state rows
              >>= λ done. step iso workflow_id scope second running done.0 done.1)
            ≡ ok (next, after))
    through_queue state h live allowed room a =
        let mid = moved first.moved_at first.event_id state queued in
        let between = saved_rows first mid rows in
        (
          moved second.moved_at second.event_id mid running,
          saved_rows second (moved second.moved_at second.event_id mid running) between,
          ap (λ m. m >>= λ done. step iso workflow_id scope second running done.0 done.1)
                (step-succeeds first queued state rows k h first_named room live allowed (λ e. cc))
              ∙ step-succeeds second running mid between k (Holds-saved first mid state rows h)
                  second_named
                  (HasRoom-moved first.moved_at first.event_id state queued 1 room (λ e. cc)) refl
                  refl (λ e. a),
        )

    -- What `_advance_to_running` does in a status.
    branch : WorkflowState → WorkflowStatus → Result RunnerError (WorkflowState × List StateRow)
    branch state w = elim w [
      | created ↦ step iso workflow_id scope first queued state rows >>= λ done.
          step iso workflow_id scope second running done.0 done.1
      | queued ↦ step iso workflow_id scope first running state rows
      | running ↦ step iso workflow_id scope first queued state rows >>= λ done.
          step iso workflow_id scope second running done.0 done.1
      | status ↦ err (not_resumable workflow_id status)
    ]

    advance_from :
        (w : WorkflowStatus) (state : WorkflowState)
        → state.status ≡ w
        → is_terminal w ≡ false
        → Holds state rows
        → HasRoom (steps_left w) state
        → state.attempts + 1 ≤ state.budget.max_attempts
        → Runs state
    unfolding advance_to_running branch
    advance_from created state at live h room a =
        let (next, after, done) = through_queue state h (rw at refl) (rw at refl) room a in
        (next, after, ap (branch state) at ∙ done)
    advance_from running state at live h room a =
        let (next, after, done) = through_queue state h (rw at refl) (rw at refl) room a in
        (next, after, ap (branch state) at ∙ done)
    advance_from queued state at live h room a = (
      moved first.moved_at first.event_id state running,
      saved_rows first (moved first.moved_at first.event_id state running) rows,
      ap (branch state) at
          ∙ step-succeeds first running state rows k h first_named room (rw at refl) (rw at refl)
              (λ e. a),
    )
    advance_from succeeded state at live h room a = cc
    advance_from failed state at live h room a = cc
    advance_from closed state at live h room a = cc

    -- On a table that the store wrote and that has the workflow in the status and scope of a
    -- constructed state that is not terminal, with an attempt and an event for each step left in its
    -- budget, `_advance_to_running` returns: the state is in `running`, with one attempt more, within its
    -- budget, and it is what every later `get` reads. The event ids are valid identifiers.
    pub advance_to_running-succeeds :
        (state : WorkflowState)
        → IsTable iso rows
        → IsConstructed state
        → Holds state rows
        → is_terminal state.status ≡ false
        → HasRoom (steps_left state.status) state
        → state.attempts + 1 ≤ state.budget.max_attempts
        → (next : WorkflowState) × (after : List StateRow) × (advance_to_running iso workflow_id
              scope first second state rows
            ≡ ok (next, after))
          × Advanced iso workflow_id scope state next after
    advance_to_running-succeeds state t c h live room a =
        let (next, after, done) = advance_from state.status state refl live h room a in
        (
          next,
          after,
          done,
          (advance_to_running-Advanced iso workflow_id scope first second state rows t c k).0 next
              after done,
        )
