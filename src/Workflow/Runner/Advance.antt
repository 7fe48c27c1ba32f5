-- ===== src/Workflow/Runner/Advance.antt =====
-- What the steps of the runner leave in the store.
use nl2data_core.Common.{
  ℕ, ◌+◌, ◌≡◌, refl, sym, ap, subst, ◌∙◌, true, none, some, Option, List, [], ◌∷◌, String, Result,
  ok, err, ◌>>=◌, bind_ok, then_ok, ok_injective, All-append, arith, if◌then◌else◌, str_eq,
  str_eq_iff, opt_eq, opt_eq_iff, ◌&&◌, ◌≤◌,
}
use nl2data_core.Workflow.Models.{
  succeeded, failed, closed, is_terminal, WorkflowStatus, created, queued, running, WorkflowState,
  event_ok, scope_ok, WorkflowError,
}
use nl2data_core.Workflow.Transitions.{next_attempts, Occurrence, transition}
use nl2data_core.Workflow.Transitions.Branches.{transition-Advances, transition-attempts}
use nl2data_core.Workflow.Snapshot.{Iso}
use nl2data_core.Workflow.Snapshot.RoundTrip.{IsConstructed, canonical}
use nl2data_core.Workflow.Contract.{Entry, ErrorClass, update_entry, check_entry, Implements}
use nl2data_core.Workflow.Sqlite.{StateRow, select_state, SqlError, get_revision, get, update}
use nl2data_core.Workflow.Sqlite.Refinement.{
  error_class, IsTable, entry_of, entry_of-written, select_state-IsRow, entry, update-Implements,
}
use nl2data_core.Workflow.Sqlite.Keys.{namespace_of}
use nl2data_core.Workflow.Sqlite.Creation.{get-entry, state_of}
use nl2data_core.Workflow.Sqlite.Table.{update-IsTable}
use nl2data_core.Workflow.Runner.{
  Tick, RunnerError, not_resumable, from_store, from_workflow, occurrence_of, step,
  advance_to_running,
}

-- A transition of a constructed state constructs its result.
transition-IsConstructed :
    (now : ℕ) (s : WorkflowState) (target : WorkflowStatus) (o : Occurrence) (r p : Option ℕ)
    {t : WorkflowState}
    → IsConstructed s
    → transition now s target o r p ≡ ok t
    → t.compatibility_fingerprints ≡ s.compatibility_fingerprints
    → IsConstructed t
transition-IsConstructed now s target o r p {t} c h same =
    let a = transition-Advances now s target o r p h in
    record {
      state = a.valid_state;
      budget = rw a.same_budget c.budget;
      events = rw a.logged (
          All-append (λ e. event_ok e ≡ true) s.events (a.event ∷ []) c.events (a.valid_event, tt));
      compatibility = rw same c.compatibility;
    }

transition-same_compatibility :
    (now : ℕ) (s : WorkflowState) (target : WorkflowStatus) (o : Occurrence) (r p : Option ℕ)
    {t : WorkflowState}
    → transition now s target o r p ≡ ok t
    → t.compatibility_fingerprints ≡ s.compatibility_fingerprints
unfolding transition
transition-same_compatibility now s target o r p h = ground arith

update_entry-state :
    (now : ℕ) (expected : WorkflowStatus) (state : WorkflowState) (version : Option ℕ)
    (o : Option Entry) (e : Entry)
    → update_entry now expected state version o ≡ ok e
    → e.state ≡ state
unfolding update_entry
update_entry-state now expected state version none e h = cc
update_entry-state now expected state version (some old) e h =
    ap (λ x. x.state)
      (sym (ok_injective _ refl (then_ok (check_entry expected state version old) _ e h).1))

from_store-ok : {A : Type 0} (m : Result SqlError A) (a : A) → from_store m ≡ ok a → m ≡ ok a
from_store-ok (ok x) a h = ap ok (ok_injective _ refl h)
from_store-ok (err e) a h = cc

from_workflow-ok :
    {A : Type 0} (m : Result WorkflowError A) (a : A) → from_workflow m ≡ ok a → m ≡ ok a
from_workflow-ok (ok x) a h = ap ok (ok_injective _ refl h)
from_workflow-ok (err e) a h = cc

module _ (iso : Iso) (workflow_id : String) (scope : Option String) where
  -- What a call that was promised an entry, and returned, left there.
  entry_after :
      (now : ℕ) (state : WorkflowState) (rows after : List StateRow)
      (promised : Result ErrorClass Entry)
      → ((e : Entry) → promised ≡ ok e → e.state ≡ state)
      → Implements (entry iso now) error_class scope workflow_id rows (ok after) promised
      → state_of iso (entry iso now scope workflow_id after) ≡ some state
  entry_after now state rows after (ok e) same i =
      let own : (opt_eq scope scope && str_eq workflow_id workflow_id) ≡ true =
        rw ((opt_eq_iff scope scope).1 refl, (str_eq_iff workflow_id workflow_id).1 refl) refl in
      ap (state_of iso) (
        i scope workflow_id
        ∙ ap (λ b. if b then some e else entry iso now scope workflow_id rows) own)
      ∙ ap some (same e refl)
  entry_after now state rows after (err e) same i = absurd i

  -- On a table that the store wrote, the clock does not matter to what is read.
  entry-any_time :
      (now later : ℕ) (rows : List StateRow)
      → IsTable iso rows
      → entry iso now scope workflow_id rows ≡ entry iso later scope workflow_id rows
  entry-any_time now later rows t = of_row (select_state (namespace_of scope) workflow_id rows) refl
    where
      of_row :
          (o : Option StateRow)
          → select_state (namespace_of scope) workflow_id rows ≡ o
          → entry_of iso now o ≡ entry_of iso later o
      of_row none found = refl
      of_row (some r) found =
          let v = select_state-IsRow iso (namespace_of scope) workflow_id rows r t found in
          entry_of-written iso now v.state r v.constructed v.written
          ∙ sym (entry_of-written iso later v.state r v.constructed v.written)

  -- What a step that returned did: its state is the transition of the given one, and what is read.
  pub record Stepped (target : WorkflowStatus) (state next : WorkflowState) (after : List StateRow)
      : Type 0 where
    pub table : IsTable iso after
    pub constructed : IsConstructed next
    pub reached : next.status ≡ target
    pub attempts : next.attempts ≡ next_attempts state target
    pub within : (target ≡ running) → next.attempts ≤ next.budget.max_attempts
    pub same_budget : next.budget ≡ state.budget
    pub stored : (later : ℕ) → get iso later workflow_id scope after ≡ ok (some (canonical next))

  pub step-Stepped :
      (tick : Tick) (target : WorkflowStatus) (state : WorkflowState) (rows : List StateRow)
      {next : WorkflowState} {after : List StateRow}
      → IsTable iso rows
      → IsConstructed state
      → scope_ok scope ≡ true
      → step iso workflow_id scope tick target state rows ≡ ok (next, after)
      → Stepped target state next after
  unfolding step
  step-Stepped tick target state rows {next} {after} t c k h =
      let (revision, _, moving) =
        bind_ok (from_store (get_revision workflow_id scope rows)) _ (next, after) h in
      let (moved, made, saving) =
        bind_ok
          (from_workflow (transition tick.moved_at state target (occurrence_of tick) none none)) _
          (next, after) moving in
      let (saved, written, done) =
        bind_ok
          (from_store (update iso tick.saved_at workflow_id state.status moved revision scope rows))
          _ (next, after) saving in
      of_parts revision moved saved (from_workflow-ok _ moved made) (from_store-ok _ saved written)
        (ok_injective _ refl done)
    where
      of_parts :
          (revision : Option ℕ) (moved : WorkflowState) (saved : List StateRow)
          → transition tick.moved_at state target (occurrence_of tick) none none ≡ ok moved
          → update iso tick.saved_at workflow_id state.status moved revision scope rows ≡ ok saved
          → ◌≡◌ {A = WorkflowState × List StateRow} (moved, saved) (next, after)
          → Stepped target state next after
      of_parts revision moved saved m u same =
          let a = transition-Advances tick.moved_at state target (occurrence_of tick) none none m in
          let (counted, bounded, _) =
            transition-attempts tick.moved_at state target (occurrence_of tick) none none m in
          let d =
            transition-IsConstructed tick.moved_at state target (occurrence_of tick) none none c m (
              transition-same_compatibility tick.moved_at state target (occurrence_of tick) none
                none m) in
          let table =
            update-IsTable iso tick.saved_at workflow_id state.status moved revision scope rows
              saved t d k u in
          subst (λ x. Stepped target state x.0 x.1) same
            (record {
              table = table;
              constructed = d;
              reached = a.reached;
              attempts = counted;
              within = λ e. rw a.same_budget (bounded e);
              same_budget = a.same_budget;
              stored = λ later.
                  get-entry iso later workflow_id scope saved table k
                  ∙ ap ok (
                      ap (state_of iso) (entry-any_time later tick.saved_at saved table)
                      ∙ entry_after tick.saved_at (canonical moved) rows saved _
                          (λ e q.
                            update_entry-state tick.saved_at state.status (canonical moved) revision
                              _ e q)
                          (subst
                            (λ x.
                              Implements (entry iso tick.saved_at) error_class scope workflow_id
                                rows x
                                (update_entry tick.saved_at state.status (canonical moved) revision
                                  (entry iso tick.saved_at scope workflow_id rows)))
                            u
                            (update-Implements iso tick.saved_at workflow_id state.status moved
                              revision scope rows t d k)));
            })

  -- A state that was brought to `running`, with one more attempt, and stored.
  pub record Advanced (state next : WorkflowState) (after : List StateRow) : Type 0 where
    pub table : IsTable iso after
    pub running_now : next.status ≡ running
    pub one_attempt : next.attempts ≡ state.attempts + 1
    pub within : next.attempts ≤ state.budget.max_attempts
    pub stored : (later : ℕ) → get iso later workflow_id scope after ≡ ok (some (canonical next))

  module _ (first second : Tick) (state : WorkflowState) (rows : List StateRow) where
    one_step :
        (next : WorkflowState) (after : List StateRow)
        → IsTable iso rows
        → IsConstructed state
        → scope_ok scope ≡ true
        → step iso workflow_id scope first running state rows ≡ ok (next, after)
        → Advanced state next after
    one_step next after t c k h =
        let s = step-Stepped first running state rows t c k h in
        record {
          table = s.table;
          running_now = s.reached;
          one_attempt = s.attempts;
          within = subst (λ b. next.attempts ≤ b.max_attempts) s.same_budget (s.within refl);
          stored = s.stored;
        }

    two_steps :
        (next : WorkflowState) (after : List StateRow)
        → IsTable iso rows
        → IsConstructed state
        → scope_ok scope ≡ true
        → (step iso workflow_id scope first queued state rows >>= λ done.
            step iso workflow_id scope second running done.0 done.1)
          ≡ ok (next, after)
        → Advanced state next after
    two_steps next after t c k h =
        let ((mid, between), q, r) =
          bind_ok (step iso workflow_id scope first queued state rows)
            (λ done. step iso workflow_id scope second running done.0 done.1) (next, after) h in
        let s = step-Stepped first queued state rows t c k q in
        let u = step-Stepped second running mid between s.table s.constructed k r in
        record {
          table = u.table;
          running_now = u.reached;
          one_attempt = u.attempts ∙ ap (λ n. n + 1) s.attempts;
          within =
              subst (λ b. next.attempts ≤ b.max_attempts) (u.same_budget ∙ s.same_budget)
                (u.within refl);
          stored = u.stored;
        }

    -- Where `_advance_to_running` returns, on a table that the store wrote and with a constructed
    -- state, the state is in `running`, with one attempt more than before and no more than its budget
    -- allows, and it is what every later `get` reads. Of a terminal state it always raises.
    pub advance_to_running-Advanced :
        IsTable iso rows
        → IsConstructed state
        → scope_ok scope ≡ true
        → ((next : WorkflowState) (after : List StateRow)
            → advance_to_running iso workflow_id scope first second state rows ≡ ok (next, after)
            → Advanced state next after)
          × (is_terminal state.status ≡ true
              → advance_to_running iso workflow_id scope first second state rows
                ≡ err (not_resumable workflow_id state.status))
    unfolding advance_to_running
    advance_to_running-Advanced t c k =
        (λ next after h. from_status state.status next after h, λ ended. refused state.status ended)
      where
        steps : WorkflowStatus → Result RunnerError (WorkflowState × List StateRow)
        steps w = elim w [
          | created ↦ step iso workflow_id scope first queued state rows >>= λ done.
              step iso workflow_id scope second running done.0 done.1
          | queued ↦ step iso workflow_id scope first running state rows
          | running ↦ step iso workflow_id scope first queued state rows >>= λ done.
              step iso workflow_id scope second running done.0 done.1
          | status ↦ err (not_resumable workflow_id status)
        ]

        from_status :
            (w : WorkflowStatus) (next : WorkflowState) (after : List StateRow)
            → steps w ≡ ok (next, after)
            → Advanced state next after
        from_status created next after h = two_steps next after t c k h
        from_status queued next after h = one_step next after t c k h
        from_status running next after h = two_steps next after t c k h
        from_status succeeded next after h = cc
        from_status failed next after h = cc
        from_status closed next after h = cc

        refused :
            (w : WorkflowStatus)
            → is_terminal w ≡ true
            → steps w ≡ err (not_resumable workflow_id w)
        refused created e = cc
        refused queued e = cc
        refused running e = cc
        refused succeeded e = refl
        refused failed e = refl
        refused closed e = refl
