-- ===== src/Workflow/Sqlite/Reach/Records.antt =====
-- Reservations, completions and the well-formed tables `idempotency_records`.
use nl2data_core.Common.{
  then_ok, bind_ok, ok_injective, ℕ, ◌≡◌, refl, sym, ap, ◌∙◌, inl, inr, Bool-cases, Bool, true,
  false, ◌&&◌, not, Option, none, some, List, [], ◌∷◌, ◌++◌, String, ok, arith, All, All-append,
  str_eq, if◌then◌else◌, is_some, subst,
}
use nl2data_core.Common.Text.{is_fingerprint}
use nl2data_core.Workflow.Snapshot.{Iso}
use nl2data_core.Workflow.Sqlite.Idempotency.{
  reserved, completed, IdempotencyRecord, Binding, select_record, validate_identity, scope_name,
  new_record, is_expired, check_binding, delete_records, update_records, reserve_selected,
  reserve_idempotency, check_completion, completed_record, complete_selected, complete_idempotency,
}
use nl2data_core.Workflow.Sqlite.Batches.{delete, delete_batch, find, IsKeyed}
use nl2data_core.Workflow.Sqlite.Batches as Batches
use nl2data_core.Workflow.Sqlite.Batches.Keyed.{
  IsKeyed-append, find-delete_self, IsKeyed-delete, All-delete, IsKeyed-update,
}
use nl2data_core.Workflow.Sqlite.Cleanup.{record_namespace, record_key, select_record-find}

-- A record has an outcome, a fingerprint, exactly when it is completed.
abbrev pub outcome_ok : IdempotencyRecord → Bool
outcome_ok r = elim r.status [
  | reserved ↦ not (is_some r.terminal_outcome_fingerprint)
  | completed ↦ elim r.terminal_outcome_fingerprint [
    | none ↦ false
    | some fingerprint ↦ is_fingerprint fingerprint
  ]
]

abbrev pub AreRecords : List IdempotencyRecord → Type 0
AreRecords rows = IsKeyed record_namespace record_key rows × All (λ r. outcome_ok r ≡ true) rows

-- The statements of the methods as those on any table.
update_records-update :
    (ns key : String) (f : IdempotencyRecord → IdempotencyRecord) (rows : List IdempotencyRecord)
    → update_records ns key f rows ≡ Batches.update record_namespace record_key ns key f rows
unfolding update_records Batches.update
update_records-update ns key f [] = refl
update_records-update ns key f (r ∷ rows) = rw (update_records-update ns key f rows) refl

delete_records-delete :
    (ns key : String) (rows : List IdempotencyRecord)
    → delete_records ns key rows ≡ delete record_namespace record_key ns key rows
unfolding delete_records delete
delete_records-delete ns key [] = refl
delete_records-delete ns key (r ∷ rows) = rw (delete_records-delete ns key rows) refl

-- A new record at a free key.
AreRecords-append :
    (now : ℕ) (ex : Option String) (ns : String) (b : Binding) (rows : List IdempotencyRecord)
    → AreRecords rows
    → find record_namespace record_key ns b.key rows ≡ none
    → AreRecords (rows ++ new_record now ex ns b ∷ [])
AreRecords-append now ex ns b rows v free = (
  IsKeyed-append record_namespace record_key rows (new_record now ex ns b) v.0 free,
  All-append (λ r. outcome_ok r ≡ true) rows (new_record now ex ns b ∷ []) v.1 (refl, tt),
)

reserve_selected-AreRecords :
    (iso : Iso) (now : ℕ) (ex : Option String) (ns : String) (b : Binding)
    (o : Option IdempotencyRecord) (rows : List IdempotencyRecord) {r : IdempotencyRecord}
    {after : List IdempotencyRecord}
    → AreRecords rows
    → select_record ns b.key rows ≡ o
    → reserve_selected iso now ex ns b o rows ≡ ok (r, after)
    → AreRecords after
unfolding reserve_selected
reserve_selected-AreRecords iso now ex ns b none rows v found h =
    subst (λ x. AreRecords x.1) (ok_injective _ refl h)
      (AreRecords-append now ex ns b rows v (sym (select_record-find ns b.key rows) ∙ found))
reserve_selected-AreRecords iso now ex ns b (some x) rows v found h =
    elim (Bool-cases (is_expired (iso.isoformat now) x)) [
      | inl over ↦
          subst (λ y. AreRecords y.1) (ok_injective _ refl (rw over at h))
            (AreRecords-append now ex ns b (delete_records ns b.key rows)
              (
                subst (IsKeyed record_namespace record_key)
                    (sym (delete_records-delete ns b.key rows))
                    (IsKeyed-delete record_namespace record_key ns b.key rows v.0),
                subst (All (λ r. outcome_ok r ≡ true)) (sym (delete_records-delete ns b.key rows)) (
                    All-delete record_namespace record_key (λ r. outcome_ok r ≡ true) ns b.key rows
                      v.1),
              )
              (ap (find record_namespace record_key ns b.key) (delete_records-delete ns b.key rows)
                ∙ find-delete_self record_namespace record_key ns b.key rows))
      | inr valid ↦
          subst (λ y. AreRecords y.1)
            (ok_injective _ refl (then_ok (check_binding b x) _ _ (rw valid at h)).1) v
    ]

pub reserve-AreRecords :
    (iso : Iso) (now : ℕ) (ex : Option String) (b : Binding) (rows : List IdempotencyRecord)
    {r : IdempotencyRecord} {after : List IdempotencyRecord}
    → AreRecords rows
    → reserve_idempotency iso now ex b rows ≡ ok (r, after)
    → AreRecords after
unfolding reserve_idempotency
reserve-AreRecords iso now ex b rows {r} {after} v h =
    let (_, rest) =
      then_ok (validate_identity b.key (some b.request_id) (some b.workflow_id) b.scope) _
        (r, after) h in
    let (ns, _, done) =
      bind_ok (scope_name b.scope)
        (λ ns. reserve_selected iso now ex ns b (select_record ns b.key rows) rows) (r, after)
        rest in
    reserve_selected-AreRecords iso now ex ns b (select_record ns b.key rows) rows v refl done

-- Completing records with a fingerprint.
outcome_ok-completed :
    (now : ℕ) (id outcome ns key : String) (rows : List IdempotencyRecord)
    → is_fingerprint outcome ≡ true
    → All (λ r. outcome_ok r ≡ true) rows
    → All (λ r. outcome_ok r ≡ true) (update_records ns key (completed_record now id outcome) rows)
unfolding update_records
outcome_ok-completed now id outcome ns key [] p h = tt
outcome_ok-completed now id outcome ns key (x ∷ rows) p h = (
  chosen (str_eq x.scope_namespace ns && str_eq x.idempotency_key key),
  outcome_ok-completed now id outcome ns key rows p h.1,
)
  where
    chosen : (b : Bool) → outcome_ok (if b then completed_record now id outcome x else x) ≡ true
    chosen true = p
    chosen false = h.0

pub complete-AreRecords :
    (now : ℕ) (key id outcome : String) (scope : Option String) (rows : List IdempotencyRecord)
    {r : IdempotencyRecord} {after : List IdempotencyRecord}
    → AreRecords rows
    → complete_idempotency now key id outcome scope rows ≡ ok (r, after)
    → AreRecords after
unfolding complete_idempotency complete_selected check_completion
complete-AreRecords now key id outcome scope rows {r} {after} v h =
    let (_, rest) = then_ok (validate_identity key none (some id) scope) _ (r, after) h in
    let (ns, _, done) =
      bind_ok (scope_name scope)
        (λ ns. complete_selected now key id outcome scope ns (select_record ns key rows) rows)
        (r, after) rest in
    written ns (select_record ns key rows) done
  where
    written :
        (ns : String) (o : Option IdempotencyRecord)
        → complete_selected now key id outcome scope ns o rows ≡ ok (r, after)
        → AreRecords after
    written ns none d = cc
    written ns (some x) d =
        let (passed, made) = then_ok (check_completion key id outcome scope x) _ (r, after) d in
        subst (λ y. AreRecords y.1) (ok_injective _ refl made)
          (
            subst (IsKeyed record_namespace record_key)
                (sym (update_records-update ns key (completed_record now id outcome) rows))
                (IsKeyed-update record_namespace record_key (completed_record now id outcome)
                  (λ y. refl) (λ y. refl) ns key rows v.0),
            outcome_ok-completed now id outcome ns key rows (ground (arith, passed)) v.1,
          )
