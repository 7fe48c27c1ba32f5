-- ===== src/Workflow/Sqlite/Idempotency/Completion.antt =====
-- A key of `idempotency_records` that is completed.
use nl2data_core.Common.{
  bind_ok, then_ok, ok_injective, ℕ, ◌≡◌, ◌≢◌, refl, ap, subst, ◌∙◌, inl, inr, Bool-cases, Option,
  none, some, List, [], ◌∷◌, String, ok, err, ◌>>=◌, arith, str_eq_iff, opt_eq_iff,
}
use nl2data_core.Workflow.Sqlite.Idempotency.{
  completed, IdempotencyRecord, validate_identity, scope_name, has_key_of, select_record,
  update_records, completed_record, check_completion, complete_selected, complete_idempotency,
  get_idempotency, already_completed,
}

-- A change that keeps the key reaches the row that is selected.
select-update :
    (ns key : String) (f : IdempotencyRecord → IdempotencyRecord) (rows : List IdempotencyRecord)
    (r : IdempotencyRecord)
    → ((x : IdempotencyRecord) → has_key_of ns key (f x) ≡ has_key_of ns key x)
    → select_record ns key rows ≡ some r
    → select_record ns key (update_records ns key f rows) ≡ some (f r)
unfolding select_record update_records
select-update ns key f [] r keeps h = cc
select-update ns key f (x ∷ rows) r keeps h = elim (Bool-cases (has_key_of ns key x)) [
  | inl here ↦ rw (here, keeps x, here) (ap (λ y. some (f y)) (ground (arith, h, here)))
  | inr there ↦ rw (there, there) (select-update ns key f rows r keeps (rw there at h))
]

-- What a completion leaves behind.
record Closed (key workflow_id outcome : String) (scope : Option String) (r : IdempotencyRecord)
    (after : List IdempotencyRecord) : Type 0 where
  ns : String
  validated : validate_identity key none (some workflow_id) scope ≡ ok tt
  named : scope_name scope ≡ ok ns
  held : select_record ns key after ≡ some r
  scoped : r.tenant_scope_fingerprint ≡ scope
  of_workflow : r.workflow_id ≡ workflow_id
  closed : r.status ≡ completed
  recorded : r.terminal_outcome_fingerprint ≡ some outcome

check_completion-scope :
    (key workflow_id outcome : String) (scope : Option String) (r : IdempotencyRecord)
    → check_completion key workflow_id outcome scope r ≡ ok tt
    → r.tenant_scope_fingerprint ≡ scope
unfolding check_completion
check_completion-scope key workflow_id outcome scope r h =
    (opt_eq_iff r.tenant_scope_fingerprint scope).0 (ground (arith, h))

-- A completed record passes the tests of no completion.
check_completion-completed :
    (key workflow_id outcome : String) (scope : Option String) (r : IdempotencyRecord)
    → r.status ≡ completed
    → check_completion key workflow_id outcome scope r ≢ ok tt
unfolding check_completion
check_completion-completed key workflow_id outcome scope r h = λ k. ground (arith, h, k)

check_completion-already :
    (key workflow_id outcome : String) (scope : Option String) (r : IdempotencyRecord)
    → r.tenant_scope_fingerprint ≡ scope
    → r.workflow_id ≡ workflow_id
    → r.status ≡ completed
    → check_completion key workflow_id outcome scope r ≡ err (already_completed key)
unfolding check_completion
check_completion-already key workflow_id outcome scope r p q h =
    rw
      (
        (opt_eq_iff r.tenant_scope_fingerprint scope).1 p,
        (str_eq_iff r.workflow_id workflow_id).1 q,
        h,
      )
      refl

complete-Closed :
    (now : ℕ) (key workflow_id outcome : String) (scope : Option String)
    (rows : List IdempotencyRecord) {r : IdempotencyRecord} {after : List IdempotencyRecord}
    → complete_idempotency now key workflow_id outcome scope rows ≡ ok (r, after)
    → Closed key workflow_id outcome scope r after
unfolding complete_idempotency complete_selected
complete-Closed now key workflow_id outcome scope rows {r} {after} h =
    let (valid, rest) =
      then_ok (validate_identity key none (some workflow_id) scope)
        (scope_name scope >>= λ ns.
          complete_selected now key workflow_id outcome scope ns (select_record ns key rows) rows)
        (r, after) h in
    let (ns, named, done) =
      bind_ok (scope_name scope)
        (λ ns.
          complete_selected now key workflow_id outcome scope ns (select_record ns key rows) rows)
        (r, after) rest in
    of_selected ns valid named (select_record ns key rows) refl done
  where
    of_selected :
        (ns : String)
        → validate_identity key none (some workflow_id) scope ≡ ok tt
        → scope_name scope ≡ ok ns
        → (o : Option IdempotencyRecord) → select_record ns key rows ≡ o
        → complete_selected now key workflow_id outcome scope ns o rows ≡ ok (r, after)
        → Closed key workflow_id outcome scope r after
    of_selected ns valid named none found d = cc
    of_selected ns valid named (some x) found d =
        let (passed, same) =
          then_ok (check_completion key workflow_id outcome scope x)
            (ok (
              completed_record now workflow_id outcome x,
              update_records ns key (completed_record now workflow_id outcome) rows,
            ))
            (r, after) d in
        subst (λ y. Closed key workflow_id outcome scope y.0 y.1) (ok_injective _ refl same)
          (record {
            ns = ns;
            validated = valid;
            named = named;
            held =
                select-update ns key (completed_record now workflow_id outcome) rows x (λ y. refl)
                  found;
            scoped = check_completion-scope key workflow_id outcome scope x passed;
            of_workflow = refl;
            closed = refl;
            recorded = refl;
          })

-- After a completion returned a record, `get_idempotency` reads that record, with the outcome, a
-- completion by the same workflow reports that the key is completed, and no completion of the key in
-- the scope returns, whatever its workflow and outcome.
pub complete_once :
    (now : ℕ) (key workflow_id outcome : String) (scope : Option String)
    (rows : List IdempotencyRecord) {r : IdempotencyRecord} {after : List IdempotencyRecord}
    → complete_idempotency now key workflow_id outcome scope rows ≡ ok (r, after)
    → (get_idempotency key scope after ≡ ok (some r))
      × (r.terminal_outcome_fingerprint ≡ some outcome)
      × ((later : ℕ) (other : String)
          → complete_idempotency later key workflow_id other scope after
            ≡ err (already_completed key))
      × ((later : ℕ) (id other : String) (x : IdempotencyRecord × List IdempotencyRecord)
          → complete_idempotency later key id other scope after ≢ ok x)
unfolding get_idempotency complete_idempotency complete_selected
complete_once now key workflow_id outcome scope rows {r} {after} h =
    let c = complete-Closed now key workflow_id outcome scope rows h in
    (
      ap (λ m. m >>= λ ns. ok (select_record ns key after)) c.named ∙ ap ok c.held,
      c.recorded,
      λ later other.
          rw
            (
              c.validated,
              c.named,
              c.held,
              check_completion-already key workflow_id other scope r c.scoped c.of_workflow
                  c.closed,
            )
            refl,
      λ later id other x done.
          let rest : (complete_selected later key id other scope c.ns (some r) after ≡ ok x) =
            rw (c.named, c.held) at
              (then_ok (validate_identity key none (some id) scope) _ x done).1 in
          check_completion-completed key id other scope r c.closed
            (then_ok (check_completion key id other scope r) _ x rest).0,
    )
