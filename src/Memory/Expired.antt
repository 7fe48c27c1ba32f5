-- ===== src/Memory/Expired.antt =====
-- Expired ids between two calls of `compact` (memory/inmemory.py).
use nl2data_core.Common.{
  ◌≡◌, sym, subst, ap, ◌∙◌, inl, inr, Bool-cases, Bool, true, String, ok, err, arith, contains,
  str_eq_iff, if◌then◌else◌, ◌∷◌,
}
use nl2data_core.Common.Dict.{has_key, erase}
use nl2data_core.Memory.Models.{MemoryRecord}
use nl2data_core.Memory.Provider.{
  Provider, record_rejected, append, compare_and_set, expire, delete,
}
use nl2data_core.Memory.Valid.{compare_and_set_lem}

-- The second store is left by any number of calls on the first that return, none of them `compact`.
pub data Uncompacted (p : Provider) : Provider → Type 0 where
  here : Uncompacted p p
  by_append :
      (q t : Provider) (r : MemoryRecord) (id : String)
      → Uncompacted p q
      → append r q ≡ ok (id, t)
      → Uncompacted p t
  by_compare_and_set :
      (q t : Provider) (e r : MemoryRecord) (b : Bool)
      → Uncompacted p q
      → compare_and_set e r q ≡ ok (b, t)
      → Uncompacted p t
  by_expire :
      (q t : Provider) (id : String) (b : Bool)
      → Uncompacted p q
      → expire id q ≡ ok (b, t)
      → Uncompacted p t
  by_delete :
      (q t : Provider) (id : String) (b : Bool)
      → Uncompacted p q
      → delete id q ≡ ok (b, t)
      → Uncompacted p t

-- The id is reserved in a store that answers.
record IsReserved (id : String) (p : Provider) : Type 0 where
  up : p.available ≡ true
  reserved : contains id p.expired_ids ≡ true

expire-made :
    (id : String) (p q : Provider)
    → expire id p ≡ ok (true, q)
    → (p.available ≡ true)
      × (q ≡ record p {
        records = erase id p.records;
        expired_ids = if contains id p.expired_ids then p.expired_ids else id ∷ p.expired_ids;
      })
unfolding expire
expire-made id p q h = elim (Bool-cases p.available) [
  | inr down ↦ ground (arith, down, h)
  | inl up ↦ elim (Bool-cases (has_key id p.records)) [
    | inr new ↦ ground (arith, up, new, h)
    | inl old ↦ (up, ground (arith, up, old, h))
  ]
]

expire-IsReserved : (id : String) (p q : Provider) → expire id p ≡ ok (true, q) → IsReserved id q
expire-IsReserved id p q h =
    let (up, made) = expire-made id p q h in
    subst (IsReserved id) (sym made)
      (record { up = up; reserved = ground (arith, str_eq_iff id id) })

append-kept :
    (k : String) (q t : Provider) (r : MemoryRecord) (id : String)
    → append r q ≡ ok (id, t)
    → (t.available ≡ q.available) × (t.expired_ids ≡ q.expired_ids)
unfolding append
append-kept k q t r id h = ground (arith, h)

expire-kept :
    (k : String) (q t : Provider) (id : String) (b : Bool)
    → expire id q ≡ ok (b, t)
    → IsReserved k q
    → IsReserved k t
unfolding expire
expire-kept k q t id b h v = elim (Bool-cases (has_key id q.records)) [
  | inr new ↦ subst (IsReserved k) (ground (arith, v.up, new, h)) v
  | inl old ↦
      let made : (t ≡ record q {
        records = erase id q.records;
        expired_ids = if contains id q.expired_ids then q.expired_ids else id ∷ q.expired_ids;
      }) =
        ground (arith, v.up, old, h) in
      subst (IsReserved k) (sym made) (record { up = v.up; reserved = ground (arith, v.reserved) })
]

delete-kept :
    (q t : Provider) (id : String) (b : Bool)
    → delete id q ≡ ok (b, t)
    → (t.available ≡ q.available) × (t.expired_ids ≡ q.expired_ids)
unfolding delete
delete-kept q t id b h = ground (arith, h)

same-IsReserved :
    (k : String) (q t : Provider)
    → (t.available ≡ q.available) × (t.expired_ids ≡ q.expired_ids)
    → IsReserved k q
    → IsReserved k t
same-IsReserved k q t (one, same) v = record {
  up = one ∙ v.up;
  reserved = ap (contains k) same ∙ v.reserved;
}

Uncompacted-IsReserved :
    (k : String) (p t : Provider) → Uncompacted p t → IsReserved k p → IsReserved k t
Uncompacted-IsReserved k p _ here v = v
Uncompacted-IsReserved k p _ (by_append q t r id u h) v =
    same-IsReserved k q t (append-kept k q t r id h) (Uncompacted-IsReserved k p q u v)
Uncompacted-IsReserved k p _ (by_delete q t id b u h) v =
    same-IsReserved k q t (delete-kept q t id b h) (Uncompacted-IsReserved k p q u v)
Uncompacted-IsReserved k p _ (by_expire q t id b u h) v =
    expire-kept k q t id b h (Uncompacted-IsReserved k p q u v)
Uncompacted-IsReserved k p _ (by_compare_and_set q t e r b u h) v =
    elim (compare_and_set_lem e r q t b h) [
      | inl (refused, same) ↦ subst (IsReserved k) (sym same) (Uncompacted-IsReserved k p q u v)
      | inr (stored, there, one, id, done, made) ↦
          let w = Uncompacted-IsReserved k p q u v in
          subst (IsReserved k) (sym made) (record { up = w.up; reserved = w.reserved })
    ]

-- After a record was expired, and after any calls that return and are not `compact`, appending a
-- record with its id is rejected.
pub append-expire :
    (id : String) (r : MemoryRecord) (p q t : Provider)
    → expire id p ≡ ok (true, q)
    → Uncompacted q t
    → r.record_id ≡ id
    → append r t ≡ err record_rejected
unfolding append
append-expire id r p q t h u same =
    let v = Uncompacted-IsReserved id q t u (expire-IsReserved id p q h) in
    rw (same) (ground (arith, v.up, v.reserved))
