-- ===== src/Workflow/Sqlite/Idempotency/Once.antt =====
-- A key of `idempotency_records` that is reserved again while it is valid.
use nl2data_core.Common.{
  ok_injective, bind_ok, then_ok, ℕ, ◌≡◌, refl, sym, ap, subst, ◌∙◌, inl, inr, Bool-cases, true,
  false, Option, none, some, List, [], ◌∷◌, ◌++◌, String, ok, ◌>>=◌, ◌>>◌, arith, str_eq_iff,
  str_eq_refl, opt_eq_iff, if◌then◌else◌,
}
use nl2data_core.Workflow.Snapshot.{Iso}
use nl2data_core.Workflow.Sqlite.Idempotency.{
  IdempotencyRecord, validate_identity, scope_name, has_key_of, select_record, delete_records,
  is_expired, Binding, new_record, check_binding, reserve_selected, reserve_idempotency,
}

select-delete-append :
    (ns key : String) (rows : List IdempotencyRecord) (r : IdempotencyRecord)
    → has_key_of ns key r ≡ true
    → select_record ns key (delete_records ns key rows ++ r ∷ []) ≡ some r
unfolding select_record delete_records
select-delete-append ns key [] r h = rw h refl
select-delete-append ns key (x ∷ rows) r h = ground (arith, h, select-delete-append ns key rows r h)

select-append :
    (ns key : String) (rows : List IdempotencyRecord) (r : IdempotencyRecord)
    → select_record ns key rows ≡ none
    → has_key_of ns key r ≡ true
    → select_record ns key (rows ++ r ∷ []) ≡ some r
unfolding select_record
select-append ns key [] r none_there h = rw h refl
select-append ns key (x ∷ rows) r none_there h =
    ground (arith, h, none_there, select-append ns key rows r)

has_key-new :
    (now : ℕ) (ex : Option String) (ns : String) (b : Binding)
    → has_key_of ns b.key (new_record now ex ns b) ≡ true
has_key-new now ex ns b = rw (str_eq_refl ns, str_eq_refl b.key) refl

check_binding-same :
    (b : Binding) (r : IdempotencyRecord)
    → r.request_id ≡ b.request_id
    → r.tenant_scope_fingerprint ≡ b.scope
    → r.workflow_id ≡ b.workflow_id
    → check_binding b r ≡ ok tt
unfolding check_binding
check_binding-same b r p q w =
    rw
      (
        (str_eq_iff r.request_id b.request_id).1 p,
        (opt_eq_iff r.tenant_scope_fingerprint b.scope).1 q,
        (str_eq_iff r.workflow_id b.workflow_id).1 w,
      )
      refl

check_binding-bindings :
    (b : Binding) (r : IdempotencyRecord)
    → check_binding b r ≡ ok tt
    → (r.request_id ≡ b.request_id) × (r.workflow_id ≡ b.workflow_id)
unfolding check_binding
check_binding-bindings b r h = (
  (str_eq_iff r.request_id b.request_id).0 (ground (arith, h)),
  (str_eq_iff r.workflow_id b.workflow_id).0 (ground (arith, h)),
)

-- What a reservation leaves behind: the record that it returned, bound to the request.
record Bound (b : Binding) (r : IdempotencyRecord) (after : List IdempotencyRecord) : Type 0 where
  ns : String
  validated : validate_identity b.key (some b.request_id) (some b.workflow_id) b.scope ≡ ok tt
  named : scope_name b.scope ≡ ok ns
  held : select_record ns b.key after ≡ some r
  checked : check_binding b r ≡ ok tt

selected-Bound :
    (iso : Iso) (now : ℕ) (ex : Option String) (ns : String) (b : Binding)
    (rows : List IdempotencyRecord) (o : Option IdempotencyRecord) (r : IdempotencyRecord)
    (after : List IdempotencyRecord)
    → select_record ns b.key rows ≡ o
    → reserve_selected iso now ex ns b o rows ≡ ok (r, after)
    → (select_record ns b.key after ≡ some r) × (check_binding b r ≡ ok tt)
unfolding reserve_selected
selected-Bound iso now ex ns b rows none r after found h =
    subst (λ x. (select_record ns b.key x.1 ≡ some x.0) × (check_binding b x.0 ≡ ok tt))
      (ok_injective _ refl h)
      (
        select-append ns b.key rows (new_record now ex ns b) found (has_key-new now ex ns b),
        check_binding-same b (new_record now ex ns b) refl refl refl,
      )
selected-Bound iso now ex ns b rows (some x) r after found h =
    elim (Bool-cases (is_expired (iso.isoformat now) x)) [
      | inl over ↦
          subst (λ y. (select_record ns b.key y.1 ≡ some y.0) × (check_binding b y.0 ≡ ok tt))
            (ok_injective _ refl (rw over at h))
            (
              select-delete-append ns b.key rows (new_record now ex ns b) (has_key-new now ex ns b),
              check_binding-same b (new_record now ex ns b) refl refl refl,
            )
      | inr valid ↦
          let (same, kept) =
            then_ok (check_binding b x) (ok (x, rows)) (r, after) (rw valid at h) in
          subst (λ y. (select_record ns b.key y.1 ≡ some y.0) × (check_binding b y.0 ≡ ok tt))
            (ok_injective _ refl kept) (found, same)
    ]

reserve-Bound :
    (iso : Iso) (now : ℕ) (ex : Option String) (b : Binding) (rows : List IdempotencyRecord)
    {r : IdempotencyRecord} {after : List IdempotencyRecord}
    → reserve_idempotency iso now ex b rows ≡ ok (r, after)
    → Bound b r after
unfolding reserve_idempotency
reserve-Bound iso now ex b rows {r} {after} h =
    let (valid, rest) =
      then_ok (validate_identity b.key (some b.request_id) (some b.workflow_id) b.scope)
        (scope_name b.scope >>= λ ns.
          reserve_selected iso now ex ns b (select_record ns b.key rows) rows)
        (r, after) h in
    let (ns, named, done) =
      bind_ok (scope_name b.scope)
        (λ ns. reserve_selected iso now ex ns b (select_record ns b.key rows) rows) (r, after)
        rest in
    let (held, checked) =
      selected-Bound iso now ex ns b rows (select_record ns b.key rows) r after refl done in
    record { ns = ns; validated = valid; named = named; held = held; checked = checked }

-- A binding of the same key and scope, where the record is still valid.
again :
    (iso : Iso) (later : ℕ) (ex : Option String) (b : Binding) {r : IdempotencyRecord}
    (after : List IdempotencyRecord)
    → (h : Bound b r after) → is_expired (iso.isoformat later) r ≡ false
    → (c : Binding) → c.key ≡ b.key
    → c.scope ≡ b.scope
    → reserve_idempotency iso later ex c after ≡ (
        validate_identity c.key (some c.request_id) (some c.workflow_id) c.scope
        >> (check_binding c r >> ok (r, after)))
unfolding reserve_idempotency reserve_selected
again iso later ex b {r} after h valid c same_key same_scope =
    ap
      (λ m.
        validate_identity c.key (some c.request_id) (some c.workflow_id) c.scope
        >> (m >>= λ ns. reserve_selected iso later ex ns c (select_record ns c.key after) after))
      (ap scope_name same_scope ∙ h.named)
    ∙ ap
        (λ o.
          validate_identity c.key (some c.request_id) (some c.workflow_id) c.scope
          >> reserve_selected iso later ex h.ns c o after)
        (ap (λ k. select_record h.ns k after) same_key ∙ h.held)
    ∙ ap
        (λ t.
          validate_identity c.key (some c.request_id) (some c.workflow_id) c.scope
          >> (if t
              then ok (
                new_record later ex h.ns c,
                delete_records h.ns c.key after ++ new_record later ex h.ns c ∷ [],
              )
              else (check_binding c r >> ok (r, after))))
        valid

-- After a reservation returned a record, and until the record expires, the same reservation returns
-- the record again and changes nothing, and any reservation of the key in the scope that returns has
-- the request and the workflow of the first, and returns the record and changes nothing too.
pub reserve_once :
    (iso : Iso) (now later : ℕ) (ex ex_later : Option String) (b : Binding)
    (rows : List IdempotencyRecord) {r : IdempotencyRecord} {after : List IdempotencyRecord}
    → reserve_idempotency iso now ex b rows ≡ ok (r, after)
    → is_expired (iso.isoformat later) r ≡ false
    → (reserve_idempotency iso later ex_later b after ≡ ok (r, after))
      × ((c : Binding) (x : IdempotencyRecord × List IdempotencyRecord)
          → c.key ≡ b.key
          → c.scope ≡ b.scope
          → reserve_idempotency iso later ex_later c after ≡ ok x
          → (c.request_id ≡ b.request_id) × (c.workflow_id ≡ b.workflow_id) × (x ≡ (r, after)))
reserve_once iso now later ex ex_later b rows {r} {after} h valid =
    let bound = reserve-Bound iso now ex b rows h in
    (
      again iso later ex_later b after bound valid b refl refl
          ∙ ap (λ m. m >> (check_binding b r >> ok (r, after))) bound.validated
          ∙ ap (λ m. m >> ok (r, after)) bound.checked,
      λ c x same_key same_scope done.
          let (v, rest) =
            then_ok (validate_identity c.key (some c.request_id) (some c.workflow_id) c.scope)
              (check_binding c r >> ok (r, after)) x
              (sym (again iso later ex_later b after bound valid c same_key same_scope) ∙ done) in
          let (passed, same) = then_ok (check_binding c r) (ok (r, after)) x rest in
          let (p, q) = check_binding-bindings c r passed in
          let (p0, q0) = check_binding-bindings b r bound.checked in
          (sym p ∙ p0, sym q ∙ q0, ok_injective _ same refl),
    )
