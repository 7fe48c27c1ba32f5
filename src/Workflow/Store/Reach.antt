-- ===== src/Workflow/Store/Reach.antt =====
-- The store under any sequence of operations.
use nl2data_core.Common.{
  ℕ, ◌≤◌, ◌≡◌, refl, subst, inl, inr, true, Option, none, some, String, ok, arith, str_eq,
  str_eq_iff, Bool-cases, ltb,
}
use nl2data_core.Common.Dict.{lookup, lookup-insert}
use nl2data_core.Workflow.Models.{WorkflowStatus, WorkflowState, is_terminal}
use nl2data_core.Workflow.Store.{Store, empty, create, update, cleanup}
use nl2data_core.Workflow.Store.Valid.{IsValid, empty-IsValid, create_lem, create-IsValid}
use nl2data_core.Workflow.Store.Access.{Updated, update-Updated, update-IsValid}
use nl2data_core.Workflow.Store.Cleanup.{Cleaned, cleanup-Cleaned}

-- One call that succeeds, by any caller at any time.
pub data Step (s t : Store) : Type 0 where
  creating : (now : ℕ) (state : WorkflowState) → create now state s ≡ ok t → Step s t
  updating :
      (now : ℕ) (id : String) (expected : WorkflowStatus) (state : WorkflowState)
      (version : Option ℕ) (scope : Option String)
      → update now id expected state version scope s ≡ ok t
      → Step s t
  cleaning :
      (terminal_before expired_before max_records removed : ℕ)
      → cleanup terminal_before expired_before max_records s ≡ ok (removed, t)
      → Step s t

pub data Reach (s : Store) : Store → Type 0 where
  here : Reach s s
  next : {t u : Store} → Reach s t → Step t u → Reach s u

-- How the record of one workflow may change: a new one may appear, only one that has ended may
-- vanish, its tenant scope stays, and a terminal status stays.
abbrev pub Evolves : Option WorkflowState → Option WorkflowState → Type 0
Evolves none new = Unit
Evolves (some old) none = is_terminal old.status ≡ true
Evolves (some old) (some new) =
    (new.tenant_scope_fingerprint ≡ old.tenant_scope_fingerprint)
    × (is_terminal old.status ≡ true → new.status ≡ old.status)

Evolves-refl : (o : Option WorkflowState) → Evolves o o
Evolves-refl none = tt
Evolves-refl (some old) = (refl, λ h. refl)

limit_positive :
    (terminal_before expired_before max_records removed : ℕ) (s : Store) {t : Store}
    → cleanup terminal_before expired_before max_records s ≡ ok (removed, t)
    → 1 ≤ max_records
unfolding cleanup
limit_positive terminal_before expired_before max_records removed s h =
    elim (Bool-cases (ltb max_records 1)) [
      | inl low ↦ absurd (ground arith)
      | inr high ↦ ground arith
    ]

-- The call that was made is the one that `cleanup-Cleaned` speaks of.
cleanup-Cleaned_at :
    (terminal_before expired_before max_records removed : ℕ) (s : Store) {t : Store}
    → IsValid s
    → cleanup terminal_before expired_before max_records s ≡ ok (removed, t)
    → Cleaned terminal_before max_records s t removed
cleanup-Cleaned_at terminal_before expired_before max_records removed s {t} v h =
    let (removed', t', e, c) =
      cleanup-Cleaned terminal_before expired_before max_records s v
        (limit_positive terminal_before expired_before max_records removed s h) in
    let same_t : t' ≡ t = cc in
    let same_removed : removed' ≡ removed = cc in
    subst (λ n. Cleaned terminal_before max_records s t n) same_removed
      (subst (λ u. Cleaned terminal_before max_records s u removed') same_t c)

Step-IsValid : {s t : Store} → Step s t → IsValid s → IsValid t
Step-IsValid {s} (creating now state h) v = create-IsValid now state s h v
Step-IsValid {s} (updating now id expected state version scope h) v =
    update-IsValid now id expected state version scope s h v
Step-IsValid {s} (cleaning before expired limit removed h) v =
    (cleanup-Cleaned_at before expired limit removed s v h).valid

-- Whatever calls are made, the three dictionaries of the store keep the same keys, each once.
pub Reach-IsValid : {s : Store} → Reach empty s → IsValid s
Reach-IsValid here = empty-IsValid
Reach-IsValid (next r st) = Step-IsValid st (Reach-IsValid r)

create-Evolves :
    (now : ℕ) (state : WorkflowState) (s : Store) {t : Store} (k : String)
    → create now state s ≡ ok t
    → Evolves (lookup k s.states) (lookup k t.states)
create-Evolves now state s k h =
    let (fresh, made) = create_lem now state s h in
    rw made (
      rw lookup-insert (elim (Bool-cases (str_eq state.workflow_id k)) [
        | inl same ↦ rw same (rw (← (str_eq_iff state.workflow_id k).0 same) (rw fresh tt))
        | inr other ↦ rw other (Evolves-refl (lookup k s.states))
      ]))

update-Evolves :
    {now : ℕ} {id : String} {expected : WorkflowStatus} {state : WorkflowState} {version : Option ℕ}
    {scope : Option String} {s t : Store} (k : String)
    → Updated now id expected state version scope s t
    → Evolves (lookup k s.states) (lookup k t.states)
update-Evolves {id} {state} {s} k u = rw u.written (
    rw lookup-insert (elim (Bool-cases (str_eq id k)) [
      | inl same ↦ rw same (
          rw (← (str_eq_iff id k).0 same)
            (rw u.found (cc (u.in_scope, u.keeps_scope), u.keeps_terminal)))
      | inr other ↦ rw other (Evolves-refl (lookup k s.states))
    ]))

cleanup-Evolves :
    {before : ℕ} {limit : ℕ} {s t : Store} {removed : ℕ} (k : String)
    → Cleaned before limit s t removed
    → Evolves (lookup k s.states) (lookup k t.states)
cleanup-Evolves {s} k c = elim (c.kept_or_ended k) [
  | inl kept ↦ rw kept (Evolves-refl (lookup k s.states))
  | inr (gone, r) ↦ rw (gone, r.found) r.ended
]

-- In one call on a valid store no live workflow vanishes, no terminal status changes, and no
-- workflow changes its tenant scope.
pub Step-Evolves :
    {s t : Store}
    → Step s t
    → IsValid s
    → (k : String) → Evolves (lookup k s.states) (lookup k t.states)
Step-Evolves {s} (creating now state h) v k = create-Evolves now state s k h
Step-Evolves {s} (updating now id expected state version scope h) v k =
    update-Evolves k (update-Updated now id expected state version scope s h)
Step-Evolves {s} (cleaning before expired limit removed h) v k =
    cleanup-Evolves k (cleanup-Cleaned_at before expired limit removed s v h)
