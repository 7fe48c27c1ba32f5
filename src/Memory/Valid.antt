-- ===== src/Memory/Valid.antt =====
-- The well-formed stores of the memory provider, and the operations on one record.
use nl2data_core.Common.{
  ◌+◌, ◌≤◌, ◌<◌, ◌≡◌, sym, subst, ap, ◌∙◌, ◌⊎◌, inl, inr, Bool-cases, Option-cases, true, false,
  Bool, none, some, List, [], ◌∷◌, ◌++◌, String, ok, arith, contains, count, any-append, str_eq,
  str_eq_iff, if◌then◌else◌, length, is_some,
}
use nl2data_core.Common.Dict.{
  Dict, lookup, has_key, insert, erase, keys, lookup-insert, lookup-erase_ne, lookup-erase_self,
  lookup-eq-none_iff, count-keys-erase, keys-insert_old,
}
use nl2data_core.Memory.Models.{MemoryRecord}
use nl2data_core.Memory.Provider.{Provider, append, compare_and_set, expire, delete}

-- Each record stands once, under its own id, which the order has; the capacity is kept.
pub record IsValid (p : Provider) : Type 0 where
  pub unique : (id : String) → count id (keys p.records) ≤ 1
  pub ordered : (id : String) → has_key id p.records ≡ true → contains id p.order ≡ true
  pub own_id : (id : String) (r : MemoryRecord) → lookup id p.records ≡ some r → r.record_id ≡ id
  pub bounded : length p.records ≤ p.max_records

module _ {V : Type 0} where
  pub length-insert_new :
      (k : String) (v : V) (d : Dict V) → has_key k d ≡ false → length (insert k v d) ≡ length d + 1
  length-insert_new k v [] h = omega arith
  length-insert_new k v ((j, w) ∷ d) h = ground (arith, length-insert_new k v d)

  pub length-insert_old :
      (k : String) (v : V) (d : Dict V) → has_key k d ≡ true → length (insert k v d) ≡ length d
  length-insert_old k v [] h = ground arith
  length-insert_old k v ((j, w) ∷ d) h = ground (arith, length-insert_old k v d)

  pub length-erase_le : (k : String) (d : Dict V) → length (erase k d) ≤ length d
  length-erase_le k [] = omega arith
  length-erase_le k ((j, w) ∷ d) = ground (arith, length-erase_le k d)

  pub count-keys-insert_new :
      (j k : String) (v : V) (d : Dict V)
      → has_key k d ≡ false
      → count j (keys (insert k v d)) ≡ count j (keys d) + (if str_eq j k then 1 else 0)
  count-keys-insert_new j k v [] h = ground arith
  count-keys-insert_new j k v ((i, w) ∷ d) h =
      ground (arith, str_eq_iff j i, str_eq_iff k i, str_eq_iff j k, count-keys-insert_new j k v d)

  pub count-keys-new : (k : String) (d : Dict V) → has_key k d ≡ false → count k (keys d) ≡ 0
  count-keys-new k d h = elim (Option-cases (lookup k d)) [
    | inl absent ↦ (lookup-eq-none_iff k d).0 absent
    | inr (v, there) ↦ ground (arith, there)
  ]

  -- What is found after an erasure was found before.
  pub lookup-erase_found :
      (j k : String) (d : Dict V) (v : V)
      → count k (keys d) ≤ 1
      → lookup j (erase k d) ≡ some v
      → lookup j d ≡ some v
  lookup-erase_found j k d v u h = elim (Bool-cases (str_eq j k)) [
    | inl same ↦ ground (
      arith,
      subst (λ i. lookup i (erase k d) ≡ none) (sym ((str_eq_iff j k).0 same))
          (lookup-erase_self k d u),
    )
    | inr other ↦ sym (lookup-erase_ne k j d (λ q. ground (arith, str_eq_iff j k, q))) ∙ h
  ]

-- Erasing a record keeps a store well formed.
pub erase-IsValid :
    (id : String) (p : Provider) (reserved : List String)
    → IsValid p
    → IsValid (record p { records = erase id p.records; expired_ids = reserved })
erase-IsValid id p reserved v = record {
  unique = λ j. ground (arith, count-keys-erase j id p.records, v.unique j);
  ordered = λ j h. elim (Option-cases (lookup j (erase id p.records))) [
    | inl gone ↦ ground (arith, gone)
    | inr (r, there) ↦
        v.ordered j (ap is_some (lookup-erase_found j id p.records r (v.unique id) there))
  ];
  own_id = λ j r h. v.own_id j r (lookup-erase_found j id p.records r (v.unique id) h);
  bounded = omega (arith, length-erase_le id p.records, v.bounded);
}

-- What a call that went through did.
pub expire_lem :
    (id : String) (p q : Provider) (b : Bool)
    → expire id p ≡ ok (b, q)
    → (q ≡ p)
      ⊎ ((has_key id p.records ≡ true)
          × (q ≡ record p {
            records = erase id p.records;
            expired_ids = if contains id p.expired_ids then p.expired_ids else id ∷ p.expired_ids;
          }))
unfolding expire
expire_lem id p q b h = elim (Bool-cases p.available) [
  | inl up ↦ elim (Bool-cases (has_key id p.records)) [
    | inl old ↦ inr (old, ground (arith, up, old))
    | inr new ↦ inl (ground (arith, up, new))
  ]
  | inr down ↦ ground (arith, down)
]

pub delete_lem :
    (id : String) (p q : Provider) (b : Bool)
    → delete id p ≡ ok (b, q)
    → (q ≡ p) ⊎ ((has_key id p.records ≡ true) × (q ≡ record p { records = erase id p.records }))
unfolding delete
delete_lem id p q b h = elim (Bool-cases p.available) [
  | inl up ↦ elim (Bool-cases (has_key id p.records)) [
    | inl old ↦ inr (old, ground (arith, up, old))
    | inr new ↦ inl (ground (arith, up, new))
  ]
  | inr down ↦ ground (arith, down)
]

pub append_lem :
    (r : MemoryRecord) (p q : Provider) (id : String)
    → append r p ≡ ok (id, q)
    → (has_key r.record_id p.records ≡ false)
      × (contains r.record_id p.expired_ids ≡ false)
      × (length p.records < p.max_records)
      × (q ≡ record p {
        records = insert r.record_id r p.records;
        order = p.order ++ r.record_id ∷ [];
      })
unfolding append
append_lem r p q id h = (ground arith, ground arith, ground arith, ground arith)

pub compare_and_set_lem :
    (e r : MemoryRecord) (p q : Provider) (b : Bool)
    → compare_and_set e r p ≡ ok (b, q)
    → ((b ≡ false) × (q ≡ p))
      ⊎ ((stored : MemoryRecord) × (lookup e.record_id p.records ≡ some stored)
          × (stored.fingerprint ≡ e.fingerprint)
          × (r.record_id ≡ e.record_id)
          × (b ≡ true)
          × (q ≡ record p { records = insert e.record_id r p.records }))
unfolding compare_and_set
compare_and_set_lem e r p q b h = elim (Option-cases (lookup e.record_id p.records)) [
  | inl missing ↦ inl (ground (arith, missing), ground (arith, missing))
  | inr (s, there) ↦ elim (Bool-cases (str_eq s.fingerprint e.fingerprint)) [
    | inr other ↦ inl (ground (arith, there, other), ground (arith, there, other))
    | inl same ↦ inr (
      s,
      there,
      (str_eq_iff s.fingerprint e.fingerprint).0 same,
      (str_eq_iff r.record_id e.record_id).0 (ground (arith, there, same)),
      ground (arith, there, same),
      ground (arith, there, same),
    )
  ]
]

pub expire-IsValid :
    (id : String) (p q : Provider) (b : Bool) → IsValid p → expire id p ≡ ok (b, q) → IsValid q
expire-IsValid id p q b v h = elim (expire_lem id p q b h) [
  | inl same ↦ subst IsValid (sym same) v
  | inr (old, made) ↦ subst IsValid (sym made) (erase-IsValid id p _ v)
]

pub delete-IsValid :
    (id : String) (p q : Provider) (b : Bool) → IsValid p → delete id p ≡ ok (b, q) → IsValid q
delete-IsValid id p q b v h = elim (delete_lem id p q b h) [
  | inl same ↦ subst IsValid (sym same) v
  | inr (old, made) ↦ subst IsValid (sym made) (erase-IsValid id p p.expired_ids v)
]

pub append-IsValid :
    (r : MemoryRecord) (p q : Provider) (id : String)
    → IsValid p
    → append r p ≡ ok (id, q)
    → IsValid q
append-IsValid r p q id v h =
    let (fresh, free, room, made) = append_lem r p q id h in
    subst IsValid (sym made) (record {
      unique = λ j. ground (
        arith,
        str_eq_iff j r.record_id,
        v.unique j,
        fresh,
        count-keys-new r.record_id p.records,
        count-keys-insert_new j r.record_id r p.records fresh,
      );
      ordered = λ j k. ground (
        arith,
        lookup-insert r.record_id j r p.records,
        str_eq_iff j r.record_id,
        str_eq_iff r.record_id j,
        any-append (str_eq j) p.order (r.record_id ∷ []),
        v.ordered j,
        k,
      );
      own_id = λ j t k. ground (
        arith,
        lookup-insert r.record_id j r p.records,
        str_eq_iff r.record_id j,
        v.own_id j t,
        k,
      );
      bounded = omega (arith, length-insert_new r.record_id r p.records fresh, room);
    })

pub compare_and_set-IsValid :
    (e r : MemoryRecord) (p q : Provider) (b : Bool)
    → IsValid p
    → compare_and_set e r p ≡ ok (b, q)
    → IsValid q
compare_and_set-IsValid e r p q b v h = elim (compare_and_set_lem e r p q b h) [
  | inl (refused, same) ↦ subst IsValid (sym same) v
  | inr (s, there, one, id, done, made) ↦
      let old = ap is_some there in
      subst IsValid (sym made) (record {
        unique = λ j.
            subst (λ ks. count j ks ≤ 1) (sym (keys-insert_old e.record_id r p.records old))
              (v.unique j);
        ordered = λ j k. v.ordered j (
            ground
              (arith, lookup-insert e.record_id j r p.records, str_eq_iff e.record_id j, there, k));
        own_id = λ j t k. ground (
          arith,
          lookup-insert e.record_id j r p.records,
          str_eq_iff e.record_id j,
          v.own_id j t,
          id,
          k,
        );
        bounded = omega (arith, length-insert_old e.record_id r p.records old, v.bounded);
      })
]
