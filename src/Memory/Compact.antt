-- ===== src/Memory/Compact.antt =====
-- `compact` removes the expired records, and them only.
use nl2data_core.Common.{
  ℕ, ◌+◌, ◌≤◌, ◌≡◌, refl, sym, subst, ap, ◌∙◌, ◌⊎◌, inl, inr, Bool-cases, Option-cases, true,
  Option, none, some, List, [], ◌∷◌, String, ok, arith, contains, count, any-append, str_eq,
  str_eq_iff, if◌then◌else◌, length, is_some,
}
use nl2data_core.Common.Dict.{
  lookup, keys, lookup-erase_ne, lookup-erase_self, count-keys-erase, length-erase,
}
use nl2data_core.Memory.Models.{MemoryRecord, is_expired}
use nl2data_core.Memory.Provider.{Provider, Compaction, compact_one, compact_all, compact}
use nl2data_core.Memory.Valid.{IsValid}

-- A record that is found and has not expired.
abbrev pub live : ℕ → Option MemoryRecord → Option MemoryRecord
live now none = none
live now (some r) = if is_expired now r then none else some r

live_twice : (now : ℕ) (o : Option MemoryRecord) → live now (live now o) ≡ live now o
live_twice now none = refl
live_twice now (some r) = ground arith

live_some :
    (now : ℕ) (o : Option MemoryRecord) (r : MemoryRecord) → live now o ≡ some r → o ≡ some r
live_some now none r h = cc
live_some now (some t) r h = ground arith

-- What one turn of the loop for `id` does to the dictionary.
lookup-compact_one :
    (now : ℕ) (id j : String) (c : Compaction)
    → count id (keys c.left) ≤ 1
    → lookup j (compact_one now id c).left
      ≡ (if str_eq j id then live now (lookup j c.left) else lookup j c.left)
unfolding compact_one
lookup-compact_one now id j c u = elim (Option-cases (lookup id c.left)) [
  | inl missing ↦ ground (arith, missing, str_eq_iff j id)
  | inr (r, there) ↦
      ground
        (arith, there, str_eq_iff j id, lookup-erase_self id c.left u, lookup-erase_ne id j c.left)
]

compact_one-once :
    (now : ℕ) (id j : String) (c : Compaction)
    → count j (keys c.left) ≤ 1
    → count j (keys (compact_one now id c).left) ≤ 1
unfolding compact_one
compact_one-once now id j c u = ground (arith, count-keys-erase j id c.left)

compact_one-length :
    (now : ℕ) (id : String) (c : Compaction)
    → (compact_one now id c).removed + length (compact_one now id c).left
      ≡ c.removed + length c.left
unfolding compact_one
compact_one-length now id c = ground (arith, length-erase id c.left)

-- A record that stays keeps its place in the order.
compact_one_keeps :
    (now : ℕ) (id j : String) (c : Compaction)
    → contains j c.remaining ≡ true
    → contains j (compact_one now id c).remaining ≡ true
unfolding compact_one
compact_one_keeps now id j c h = ground (arith, any-append (str_eq j) c.remaining (id ∷ []))

compact_one_places :
    (now : ℕ) (id : String) (c : Compaction)
    → (live now (lookup id c.left) ≡ none) ⊎ (contains id (compact_one now id c).remaining ≡ true)
unfolding compact_one
compact_one_places now id c = elim (Option-cases (lookup id c.left)) [
  | inl missing ↦ inl (ground (arith, missing))
  | inr (r, there) ↦ elim (Bool-cases (is_expired now r)) [
    | inl old ↦ inl (ground (arith, there, old))
    | inr fresh ↦ inr (
        ground
          (arith, there, fresh, any-append (str_eq id) c.remaining (id ∷ []), str_eq_iff id id))
  ]
]

lookup-compact_all :
    (now : ℕ) (ids : List String) (j : String) (c : Compaction)
    → ((i : String) → count i (keys c.left) ≤ 1)
    → lookup j (compact_all now ids c).left
      ≡ (if contains j ids then live now (lookup j c.left) else lookup j c.left)
unfolding compact_all
lookup-compact_all now [] j c u = refl
lookup-compact_all now (id ∷ ids) j c u = ground (
  arith,
  lookup-compact_all now ids j (compact_one now id c) (λ i. compact_one-once now id i c (u i)),
  lookup-compact_one now id j c (u id),
  live_twice now (lookup j c.left),
)

compact_all-once :
    (now : ℕ) (ids : List String) (j : String) (c : Compaction)
    → count j (keys c.left) ≤ 1
    → count j (keys (compact_all now ids c).left) ≤ 1
unfolding compact_all
compact_all-once now [] j c u = u
compact_all-once now (id ∷ ids) j c u =
    compact_all-once now ids j (compact_one now id c) (compact_one-once now id j c u)

compact_all-length :
    (now : ℕ) (ids : List String) (c : Compaction)
    → (compact_all now ids c).removed + length (compact_all now ids c).left
      ≡ c.removed + length c.left
unfolding compact_all
compact_all-length now [] c = refl
compact_all-length now (id ∷ ids) c =
    compact_all-length now ids (compact_one now id c) ∙ compact_one-length now id c

compact_all_keeps :
    (now : ℕ) (ids : List String) (j : String) (c : Compaction)
    → contains j c.remaining ≡ true
    → contains j (compact_all now ids c).remaining ≡ true
unfolding compact_all
compact_all_keeps now [] j c h = h
compact_all_keeps now (id ∷ ids) j c h =
    compact_all_keeps now ids j (compact_one now id c) (compact_one_keeps now id j c h)

compact_all_places :
    (now : ℕ) (ids : List String) (j : String) (c : Compaction)
    → ((i : String) → count i (keys c.left) ≤ 1)
    → contains j ids ≡ true
    → (live now (lookup j c.left) ≡ none) ⊎ (contains j (compact_all now ids c).remaining ≡ true)
unfolding compact_all
compact_all_places now [] j c u h = cc
compact_all_places now (id ∷ ids) j c u h = elim (Bool-cases (str_eq j id)) [
  | inl same ↦
      subst
        (λ i.
          (live now (lookup i c.left) ≡ none)
          ⊎ (contains i (compact_all now ids (compact_one now id c)).remaining ≡ true))
        (sym ((str_eq_iff j id).0 same))
        (elim (compact_one_places now id c) [
          | inl dead ↦ inl dead
          | inr kept ↦ inr (compact_all_keeps now ids id (compact_one now id c) kept)
        ])
  | inr other ↦
      elim (compact_all_places now ids j (compact_one now id c)
        (λ i. compact_one-once now id i c (u i)) (rw other at h)) [
          | inl dead ↦ inl (ground (arith, dead, other, lookup-compact_one now id j c (u id)))
          | inr kept ↦ inr kept
        ]
]

-- What `compact` did.
pub record IsCompacted (now : ℕ) (p : Provider) (n : ℕ) (q : Provider) : Type 0 where
  pub found : (id : String) → lookup id q.records ≡ live now (lookup id p.records)
  pub counted : n + length q.records ≡ length p.records
  pub valid : IsValid q

-- On a well-formed store of an available provider, `compact` removes exactly the expired records,
-- returns their number, and leaves a well-formed store.
pub compact-IsCompacted :
    (now : ℕ) (p : Provider)
    → p.available ≡ true
    → IsValid p
    → (n : ℕ) × (q : Provider) × (compact now p ≡ ok (n, q)) × IsCompacted now p n q
unfolding compact
compact-IsCompacted now p up v =
    let start : Compaction = record {
      left = p.records;
      reserved = p.expired_ids;
      removed = 0;
      remaining = [];
    } in
    let c = compact_all now p.order start in
    let found : ((id : String) → lookup id c.left ≡ live now (lookup id p.records)) = λ id.
      elim (Option-cases (lookup id p.records)) [
        | inl absent ↦ ground (arith, absent, lookup-compact_all now p.order id start v.unique)
        | inr (r, there) ↦
            ground (arith, there, v.ordered id, lookup-compact_all now p.order id start v.unique)
      ] in
    let stays : ((id : String) (r : MemoryRecord)
        → lookup id c.left ≡ some r
        → lookup id p.records ≡ some r) =
      λ id r h. live_some now (lookup id p.records) r (sym (found id) ∙ h) in
    (
      c.removed,
      record p { records = c.left; order = c.remaining; expired_ids = c.reserved },
      rw up refl,
      record {
        found = found;
        counted = compact_all-length now p.order start ∙ omega arith;
        valid = record {
          unique = λ id. compact_all-once now p.order id start (v.unique id);
          ordered = λ id h. elim (Option-cases (lookup id c.left)) [
            | inl gone ↦ ground (arith, gone, h)
            | inr (r, there) ↦
                elim (compact_all_places now p.order id start v.unique
                  (v.ordered id (ap is_some (stays id r there)))) [
                    | inl dead ↦ ground (arith, dead, found id, there)
                    | inr kept ↦ kept
                  ]
          ];
          own_id = λ id r h. v.own_id id r (stays id r h);
          bounded = omega (arith, compact_all-length now p.order start, v.bounded);
        };
      },
    )
