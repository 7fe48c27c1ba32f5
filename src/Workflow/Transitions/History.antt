-- ===== src/Workflow/Transitions/History.antt =====
-- The event log as a history: replaying it, counting the attempts in it, and what one operation
-- appends to it.
use nl2data_core.Common.{
  ℕ, suc, ◌+◌, ◌≤◌, ◌≡◌, refl, sym, Bool, true, Bool-cases, ◌&&◌, ◌||◌, not, Option, none, some,
  List, [], ◌∷◌, ◌++◌, arith, if◌then◌else◌, any, length, length-append, ok, ◌⊎◌, inl, inr,
}
use nl2data_core.Workflow.Models.{
  WorkflowStatus, created, running, status_eq, WorkflowStage, WorkflowEvent, WorkflowState,
}
use nl2data_core.Workflow.Transitions.{
  allowed_transitions, Occurrence, transition, Evidence, checkpoint,
}
use nl2data_core.Workflow.Transitions.Branches.{
  Advances, transition-Advances, transition-attempts, checkpoint-Advances,
}

-- Whether an event may follow a status: it starts there, and stays or follows the table.
abbrev pub follows : WorkflowStatus → WorkflowEvent → Bool
follows s e =
    status_eq e.from_status s
    && (status_eq e.to_status s || any (status_eq e.to_status) (allowed_transitions s))

-- The status that a log leads to, if each event follows the one before it.
unfoldable pub replay : WorkflowStatus → List WorkflowEvent → Option WorkflowStatus
replay s [] = some s
replay s (e ∷ es) = let rest = replay e.to_status es in if follows s e then rest else none

abbrev enters_running : WorkflowEvent → Bool
enters_running e = status_eq e.to_status running && not (status_eq e.from_status running)

-- How many events of a log enter `running`.
unfoldable pub entries : List WorkflowEvent → ℕ
entries [] = 0
entries (e ∷ es) = if enters_running e then suc (entries es) else entries es

replay-append :
    (s : WorkflowStatus) (es : List WorkflowEvent) (e : WorkflowEvent) {m : WorkflowStatus}
    → replay s es ≡ some m
    → follows m e ≡ true
    → replay s (es ++ e ∷ []) ≡ some e.to_status
unfolding replay
replay-append s [] e h f = ground arith
replay-append s (x ∷ es) e {m} h f = elim (Bool-cases (follows s x)) [
  | inl next ↦ rw next (replay-append x.to_status es e (rw next at h) f)
  | inr broken ↦ cc (sym (rw broken at h))
]

entries-append :
    (es : List WorkflowEvent) (e : WorkflowEvent)
    → entries (es ++ e ∷ []) ≡ entries es + (if enters_running e then 1 else 0)
unfolding entries
entries-append [] e = ground arith
entries-append (x ∷ es) e = ground (arith, entries-append es e)

-- A state agrees with its own log, and stays within its budget.
pub record IsConsistent (s : WorkflowState) : Type 0 where
  pub replayed : replay created s.events ≡ some s.status
  pub counted : s.attempts ≡ entries s.events
  pub attempts_within : s.attempts ≤ s.budget.max_attempts
  pub events_within : length s.events ≤ s.budget.max_events

module _ {s t : WorkflowState} {target : WorkflowStatus} (a : Advances s t target) where
  Advances-replay :
      (target ≡ s.status) ⊎ (any (status_eq target) (allowed_transitions s.status) ≡ true)
      → replay created s.events ≡ some s.status
      → replay created t.events ≡ some t.status
  Advances-replay c h =
      rw a.logged (rw (replay-append created s.events a.event h (ground arith)) (ground arith))

  Advances-length : length t.events ≡ length s.events + 1
  Advances-length = rw a.logged (length-append s.events (a.event ∷ []))

pub transition-IsConsistent :
    (now : ℕ) (s : WorkflowState) (target : WorkflowStatus) (o : Occurrence) (r p : Option ℕ)
    {t : WorkflowState}
    → transition now s target o r p ≡ ok t
    → IsConsistent s
    → IsConsistent t
transition-IsConsistent now s target o r p {t} h c =
    let a = transition-Advances now s target o r p h in
    let (counts, cap, allowed) = transition-attempts now s target o r p h in
    record {
      replayed = Advances-replay a (inr allowed) c.replayed;
      counted = rw a.logged (ground (arith, entries-append s.events a.event));
      attempts_within = ground arith;
      events_within = ground (arith, Advances-length a);
    }

pub checkpoint-IsConsistent :
    (now : ℕ) (s : WorkflowState) (stage : WorkflowStage) (o : Occurrence) (e : Evidence)
    {t : WorkflowState}
    → checkpoint now s stage o e ≡ ok t
    → IsConsistent s
    → IsConsistent t
checkpoint-IsConsistent now s stage o e {t} h c =
    let (a, counts) = checkpoint-Advances now s stage o e h in
    record {
      replayed = Advances-replay a (inl refl) c.replayed;
      counted = rw a.logged (ground (arith, entries-append s.events a.event));
      attempts_within = ground arith;
      events_within = ground (arith, Advances-length a);
    }
