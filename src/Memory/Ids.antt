-- ===== src/Memory/Ids.antt =====
-- Two calls in a row on one id: what the first does to the second.
use nl2data_core.Common.{
  ◌≡◌, ◌≢◌, sym, ap, ◌∙◌, inl, inr, Bool-cases, true, false, some, String, ok, arith, contains, ◌∷◌,
  ◌++◌, [],
}
use nl2data_core.Common.Dict.{lookup, has_key, insert, erase, lookup-insert_self, lookup-erase_self}
use nl2data_core.Memory.Models.{MemoryRecord}
use nl2data_core.Memory.Provider.{Provider, append, compare_and_set, delete}
use nl2data_core.Common.Dict.{length-erase}
use nl2data_core.Memory.Valid.{IsValid, compare_and_set_lem}

-- After a record was replaced by one with another fingerprint, replacing the same expected record
-- again does not go through: of two writers that read the same record, one wins.
pub compare_and_set_stale :
    (e r s : MemoryRecord) (p q t : Provider)
    → e.fingerprint ≢ r.fingerprint
    → compare_and_set e r p ≡ ok (true, q)
    → compare_and_set e s q ≢ ok (true, t)
compare_and_set_stale e r s p q t differ first second =
    elim (compare_and_set_lem e r p q true first) [
      | inl (refused, same) ↦ cc
      | inr (stored, there, one, id, done, made) ↦ elim (compare_and_set_lem e s q t true second) [
        | inl (refused, same) ↦ cc
        | inr (again, found, agrees, id2, done2, made2) ↦
            let one : (again ≡ r) =
              ground (arith, found, made, lookup-insert_self e.record_id r p.records) in
            differ (sym agrees ∙ ap MemoryRecord.fingerprint one)
      ]
    ]

-- After a record of a well-formed store was deleted, a record with its id can be appended, if the id
-- is not that of an expired record.
pub append-delete :
    (id : String) (r : MemoryRecord) (p q : Provider)
    → IsValid p
    → r.record_id ≡ id
    → contains id p.expired_ids ≡ false
    → delete id p ≡ ok (true, q)
    → (t : Provider) × (append r q ≡ ok (id, t)) × (lookup id t.records ≡ some r)
unfolding append delete
append-delete id r p q v same free h = elim (Bool-cases p.available) [
  | inr down ↦ ground (arith, down, h)
  | inl up ↦ elim (Bool-cases (has_key id p.records)) [
    | inr new ↦ ground (arith, up, new, h)
    | inl old ↦
        let made : (q ≡ record p { records = erase id p.records }) = ground (arith, up, old, h) in
        (
          record q { records = insert id r (erase id p.records); order = p.order ++ id ∷ [] },
          rw (made, same)
              (ground (
                arith,
                up,
                free,
                lookup-erase_self id p.records (v.unique id),
                length-erase id p.records old,
                v.bounded,
              )),
          lookup-insert_self id r (erase id p.records),
        )
  ]
]
