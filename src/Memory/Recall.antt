-- ===== src/Memory/Recall.antt =====
-- What `recall` returns: admitted records within the budget, and all of them unless it says so.
use mathlib.Core.List.{Memᴰ, append-nil, append_assoc}
use nl2data_core.Common.{
  ℕ, ◌+◌, ◌/◌, ◌≤◌, ◌≡◌, refl, sym, subst, ap, ◌∙◌, inl, inr, Bool-cases, true, false, Option, none,
  some, List, [], ◌∷◌, ◌++◌, String, ok, arith, All, contains, str_eq, str_eq_iff, length,
  length-append, not,
}
use nl2data_core.Common.Dict.{Dict, lookup}
use nl2data_core.Memory.Models.{
  MemoryScope, MemoryRecord, MemoryRecallBudget, is_expired, scope_matches,
}
use nl2data_core.Memory.Provider.{
  Provider, consider, eligible, record_leb, insert_record, sort_records, Selection,
  MemoryRecallProjection, over_budget, select, recall, max_chars_per_token,
}

-- A stored record that is fresh, of the tenant and the session of the query, and passes its other
-- filters.
pub record IsAdmitted (scope : MemoryScope) (now : ℕ) (records : Dict MemoryRecord)
    (r : MemoryRecord) : Type 0 where
  pub id : String
  pub stored : lookup id records ≡ some r
  pub fresh : is_expired now r ≡ false
  pub tenant : r.scope.tenant_scope_fingerprint ≡ scope.tenant_scope_fingerprint
  pub session : r.scope.session_id ≡ scope.session_id
  pub matches : scope_matches r.scope scope ≡ true

module _ (scope : MemoryScope) (now : ℕ) (records : Dict MemoryRecord) where
  admitted_tenant :
      (r q : Option String)
      → (elim q [
        | none ↦ not (elim r [ none ↦ false | some x ↦ true ])
        | some k ↦ elim r [ none ↦ false | some x ↦ str_eq x k ]
      ])
        ≡ true
      → r ≡ q
  admitted_tenant none none h = refl
  admitted_tenant none (some k) h = cc
  admitted_tenant (some x) none h = cc
  admitted_tenant (some x) (some k) h = ap some ((str_eq_iff x k).0 h)

  IsAdmitted-of :
      (id : String) (r : MemoryRecord)
      → lookup id records ≡ some r
      → is_expired now r ≡ false
      → scope_matches r.scope scope ≡ true
      → IsAdmitted scope now records r
  IsAdmitted-of id r h f m = record {
    id = id;
    stored = h;
    fresh = f;
    tenant =
        admitted_tenant r.scope.tenant_scope_fingerprint scope.tenant_scope_fingerprint
          (ground arith);
    session = (str_eq_iff r.scope.session_id scope.session_id).0 (ground arith);
    matches = m;
  }

  consider-IsAdmitted :
      (id : String) (o : Option MemoryRecord) (rest : List MemoryRecord)
      → lookup id records ≡ o
      → All (IsAdmitted scope now records) rest
      → All (IsAdmitted scope now records) (consider scope now o rest)
  unfolding consider
  consider-IsAdmitted id none rest h all = all
  consider-IsAdmitted id (some r) rest h all = elim (Bool-cases (is_expired now r)) [
    | inl old ↦ rw old all
    | inr fresh ↦ elim (Bool-cases (scope_matches r.scope scope)) [
      | inr other ↦ rw (fresh, other) all
      | inl same ↦ rw (fresh, same) (IsAdmitted-of id r h fresh same, all)
    ]
  ]

  eligible-IsAdmitted :
      (ids : List String) → All (IsAdmitted scope now records) (eligible scope now records ids)
  unfolding eligible
  eligible-IsAdmitted [] = tt
  eligible-IsAdmitted (id ∷ ids) =
      consider-IsAdmitted id (lookup id records) (eligible scope now records ids) refl
        (eligible-IsAdmitted ids)

  consider_keeps :
      (r : MemoryRecord) (o : Option MemoryRecord) (rest : List MemoryRecord)
      → Memᴰ r rest
      → Memᴰ r (consider scope now o rest)
  unfolding consider
  consider_keeps r none rest m = m
  consider_keeps r (some t) rest m = elim (Bool-cases (is_expired now t)) [
    | inl old ↦ rw old m
    | inr fresh ↦ elim (Bool-cases (scope_matches t.scope scope)) [
      | inl same ↦ rw (fresh, same) (Memᴰ.tail m)
      | inr other ↦ rw (fresh, other) m
    ]
  ]

  consider_takes :
      (r : MemoryRecord) (o : Option MemoryRecord) (rest : List MemoryRecord)
      → o ≡ some r
      → is_expired now r ≡ false
      → scope_matches r.scope scope ≡ true
      → Memᴰ r (consider scope now o rest)
  unfolding consider
  consider_takes r o rest h f s = rw (h, consider, f, s) (Memᴰ.head refl)

  -- The loop over the ids misses no admitted record.
  eligible_takes :
      (ids : List String) (id : String) (r : MemoryRecord)
      → contains id ids ≡ true
      → lookup id records ≡ some r
      → is_expired now r ≡ false
      → scope_matches r.scope scope ≡ true
      → Memᴰ r (eligible scope now records ids)
  unfolding eligible
  eligible_takes [] id r m h f s = cc
  eligible_takes (j ∷ ids) id r m h f s = elim (Bool-cases (str_eq id j)) [
    | inl same ↦
        consider_takes r (lookup j records) (eligible scope now records ids)
          (subst (λ i. lookup i records ≡ some r) ((str_eq_iff id j).0 same) h) f s
    | inr other ↦
        consider_keeps r (lookup j records) (eligible scope now records ids)
          (eligible_takes ids id r (rw other at m) h f s)
  ]

-- Sorting keeps what holds of all records, and each record.
insert_record-All :
    (P : MemoryRecord → Type 0) (r : MemoryRecord) (rs : List MemoryRecord)
    → P r
    → All P rs
    → All P (insert_record r rs)
unfolding insert_record
insert_record-All P r [] h all = (h, tt)
insert_record-All P r (s ∷ rs) h all = elim (Bool-cases (record_leb r s)) [
  | inl le ↦ rw le (h, all)
  | inr gt ↦ rw gt (all.0, insert_record-All P r rs h all.1)
]

sort_records-All :
    (P : MemoryRecord → Type 0) (rs : List MemoryRecord) → All P rs → All P (sort_records rs)
unfolding sort_records
sort_records-All P [] all = tt
sort_records-All P (r ∷ rs) all =
    insert_record-All P r (sort_records rs) all.0 (sort_records-All P rs all.1)

insert_record-Memᴰ :
    (t r : MemoryRecord) (rs : List MemoryRecord) → Memᴰ t (r ∷ rs) → Memᴰ t (insert_record r rs)
unfolding insert_record
insert_record-Memᴰ t r [] m = m
insert_record-Memᴰ t r (s ∷ rs) m = elim (Bool-cases (record_leb r s)) [
  | inl le ↦ rw le m
  | inr gt ↦ rw gt (past (insert_record-Memᴰ t r rs) m)
]
  where
    past :
        (Memᴰ t (r ∷ rs) → Memᴰ t (insert_record r rs))
        → Memᴰ t (r ∷ s ∷ rs)
        → Memᴰ t (s ∷ insert_record r rs)
    past rec (Memᴰ.head h) = Memᴰ.tail (rec (Memᴰ.head h))
    past rec (Memᴰ.tail (Memᴰ.head h)) = Memᴰ.head h
    past rec (Memᴰ.tail (Memᴰ.tail k)) = Memᴰ.tail (rec (Memᴰ.tail k))

sort_records-Memᴰ :
    (t : MemoryRecord) (rs : List MemoryRecord) → Memᴰ t rs → Memᴰ t (sort_records rs)
unfolding sort_records
sort_records-Memᴰ t [] m = m
sort_records-Memᴰ t (r ∷ rs) (Memᴰ.head h) = insert_record-Memᴰ t r (sort_records rs) (Memᴰ.head h)
sort_records-Memᴰ t (r ∷ rs) (Memᴰ.tail m) =
    insert_record-Memᴰ t r (sort_records rs) (Memᴰ.tail (sort_records-Memᴰ t rs m))

abbrev pub total_size : (MemoryRecord → ℕ) → List MemoryRecord → ℕ
total_size size [] = 0
total_size size (r ∷ rs) = size r + total_size size rs

-- What the loop of `recall` keeps: within the budget, the sizes counted.
pub record IsWithin (size : MemoryRecord → ℕ) (budget : MemoryRecallBudget) (s : Selection)
    : Type 0 where
  pub few : length s.selected ≤ budget.max_records
  pub short : s.char_count ≤ budget.max_chars
  pub cheap : s.char_count / max_chars_per_token ≤ budget.max_tokens
  pub counted : s.char_count ≡ total_size size s.selected

total_size-append :
    (size : MemoryRecord → ℕ) (xs : List MemoryRecord) (r : MemoryRecord)
    → total_size size (xs ++ r ∷ []) ≡ total_size size xs + size r
total_size-append size [] r = omega arith
total_size-append size (x ∷ xs) r = omega (arith, total_size-append size xs r)

All-prefix : (P : MemoryRecord → Type 0) (xs ys : List MemoryRecord) → All P (xs ++ ys) → All P xs
All-prefix P [] ys all = tt
All-prefix P (x ∷ xs) ys all = (all.0, All-prefix P xs ys all.1)

module _ (size : MemoryRecord → ℕ) (budget : MemoryRecallBudget) where
  select-IsWithin :
      (rs : List MemoryRecord) (s : Selection)
      → IsWithin size budget s
      → IsWithin size budget (select size budget rs s)
  unfolding select
  select-IsWithin [] s w = w
  select-IsWithin (r ∷ rs) s w = elim (Bool-cases (over_budget budget (size r) s)) [
    | inl over ↦
        rw over (record { few = w.few; short = w.short; cheap = w.cheap; counted = w.counted })
    | inr fits ↦ rw fits (
        select-IsWithin rs
          (record s { selected = s.selected ++ r ∷ []; char_count = s.char_count + size r })
          (record {
            few = ground (arith, length-append s.selected (r ∷ []));
            short = ground arith;
            cheap = ground arith;
            counted = omega (arith, total_size-append size s.selected r, w.counted);
          }))
  ]

  -- The selection is a prefix, and the whole where nothing was cut off.
  select-prefix :
      (rs : List MemoryRecord) (s : Selection)
      → s.truncated ≡ false
      → (rest : List MemoryRecord) × (s.selected ++ rs ≡ (select size budget rs s).selected ++ rest)
        × ((select size budget rs s).truncated ≡ false → rest ≡ [])
  unfolding select
  select-prefix [] s h = ([], refl, λ k. refl)
  select-prefix (r ∷ rs) s h = elim (Bool-cases (over_budget budget (size r) s)) [
    | inl over ↦ (r ∷ rs, rw over refl, rw over (λ k. cc))
    | inr fits ↦
        let (rest, split, whole) =
          select-prefix rs
            (record s { selected = s.selected ++ r ∷ []; char_count = s.char_count + size r }) h in
        (rest, rw fits (sym (append_assoc s.selected (r ∷ []) rs) ∙ split), rw fits whole)
  ]

-- The projection of a provider, as its class promises it.
pub record IsProjection (size : MemoryRecord → ℕ) (scope : MemoryScope)
    (budget : MemoryRecallBudget) (now : ℕ) (p : Provider) (m : MemoryRecallProjection)
    : Type 0 where
  pub admitted : All (IsAdmitted scope now p.records) m.records
  pub within :
      IsWithin size budget
        (record { selected = m.records; char_count = m.char_count; truncated = m.truncated })
  -- unless it says that it is truncated, it has every stored record that the loop can meet
  pub complete :
      m.truncated ≡ false
      → (id : String) (r : MemoryRecord) → contains id p.order ≡ true
      → lookup id p.records ≡ some r
      → is_expired now r ≡ false
      → scope_matches r.scope scope ≡ true
      → Memᴰ r m.records

-- `recall` of an available provider returns a projection: of stored, fresh records only, of the
-- tenant and the session of the query and past its other filters. Their number, their sizes, which it
-- counts, and the estimate of tokens are within the budget, and unless it is truncated it has each
-- such record whose id is in the order.
pub recall-IsProjection :
    (size : MemoryRecord → ℕ) (scope : MemoryScope) (budget : MemoryRecallBudget) (now : ℕ)
    (p : Provider)
    → p.available ≡ true
    → (m : MemoryRecallProjection) × (recall size scope budget now p ≡ ok m)
      × IsProjection size scope budget now p m
unfolding recall
recall-IsProjection size scope budget now p up =
    let found = sort_records (eligible scope now p.records p.order) in
    let start : Selection = record { selected = []; char_count = 0; truncated = false } in
    let (rest, split, whole) = select-prefix size budget found start refl in
    let s = select size budget found start in
    let w =
      select-IsWithin size budget found start
        (record { few = omega arith; short = omega arith; cheap = omega arith; counted = refl }) in
    (
      record {
        scope_fingerprint = scope.fingerprint;
        records = s.selected;
        truncated = s.truncated;
        char_count = s.char_count;
        token_estimate = s.char_count / max_chars_per_token;
      },
      rw up refl,
      record {
        admitted = All-prefix (IsAdmitted scope now p.records) s.selected rest (
            subst (All (IsAdmitted scope now p.records)) split (
              sort_records-All (IsAdmitted scope now p.records)
                (eligible scope now p.records p.order)
                (eligible-IsAdmitted scope now p.records p.order)));
        within = w;
        complete = λ all id r m h f k.
            subst (Memᴰ r) (split ∙ ap (λ t. s.selected ++ t) (whole all) ∙ append-nil s.selected) (
              sort_records-Memᴰ r (eligible scope now p.records p.order)
                (eligible_takes scope now p.records p.order id r m h f k));
      },
    )
