-- ===== src/Memory/Provider.antt =====
-- `InMemoryMemoryProvider` (memory/inmemory.py). The reading of the clock is an argument, and so is
-- the size of a record, the length of its canonical JSON.
use nl2data_core.Common.{
  ℕ, suc, ◌+◌, ◌/◌, Bool, true, false, ◌&&◌, ◌||◌, not, Option, none, some, List, [], ◌∷◌, ◌++◌,
  String, Result, ok, ◌>>◌, raise_if, if◌then◌else◌, contains, length, leb, ltb, ◌==◌, str_eq,
}
use nl2data_core.Common.Dict.{Dict, lookup, has_key, insert, erase}
use nl2data_core.Common.Sort.{str_leb}
use nl2data_core.Memory.Models.{
  MemoryScope, MemoryRecord, MemoryRecallBudget, is_expired, scope_matches,
}

pub record Provider : Type 0 where
  pub available : Bool
  pub max_records : ℕ
  pub records : Dict MemoryRecord
  pub order : List String
  pub expired_ids : List String

-- `MemoryErrorCode`, the codes that the provider raises.
pub data MemoryErrorCode : Type 0 where
  memory_unavailable record_rejected budget_exceeded scope_mismatch : MemoryErrorCode

-- `_ensure_available`
abbrev pub ensure_available : Provider → Result MemoryErrorCode (Unit {0})
ensure_available p = raise_if (not p.available) memory_unavailable

unfoldable pub append : MemoryRecord → Provider → Result MemoryErrorCode (String × Provider)
append r p =
    ensure_available p
    >> (raise_if (has_key r.record_id p.records || contains r.record_id p.expired_ids)
          record_rejected
        >> (raise_if (leb p.max_records (length p.records)) budget_exceeded
            >> ok (
              r.record_id,
              record p {
                records = insert r.record_id r p.records;
                order = p.order ++ r.record_id ∷ [];
              },
            )))

-- One turn of the loop over the ids, put before what the further turns add.
unfoldable pub consider :
    MemoryScope → ℕ → Option MemoryRecord → List MemoryRecord → List MemoryRecord
consider scope now none rest = rest
consider scope now (some r) rest =
    if is_expired now r then rest else if not (scope_matches r.scope scope) then rest else r ∷ rest

-- The loop over the ids in their order.
unfoldable pub eligible : MemoryScope → ℕ → Dict MemoryRecord → List String → List MemoryRecord
unfolding consider
eligible scope now records [] = []
eligible scope now records (id ∷ ids) =
    consider scope now (lookup id records) (eligible scope now records ids)

-- `(a.created_at, a.record_id) <= (b.created_at, b.record_id)`
abbrev pub record_leb : MemoryRecord → MemoryRecord → Bool
record_leb a b =
    ltb a.created_at b.created_at
    || (a.created_at == b.created_at && str_leb a.record_id b.record_id)

-- A stable sort by that key.
unfoldable pub insert_record : MemoryRecord → List MemoryRecord → List MemoryRecord
insert_record r [] = r ∷ []
insert_record r (s ∷ rs) = if record_leb r s then r ∷ s ∷ rs else s ∷ insert_record r rs

unfoldable pub sort_records : List MemoryRecord → List MemoryRecord
unfolding insert_record
sort_records [] = []
sort_records (r ∷ rs) = insert_record r (sort_records rs)

-- `selected`, `char_count` and `truncated`.
pub record Selection : Type 0 where
  pub selected : List MemoryRecord
  pub char_count : ℕ
  pub truncated : Bool

pub record MemoryRecallProjection : Type 0 where
  pub scope_fingerprint : String
  pub records : List MemoryRecord
  pub truncated : Bool
  pub char_count : ℕ
  pub token_estimate : ℕ

abbrev pub max_chars_per_token : ℕ
max_chars_per_token = 4

-- The record would exceed the budget.
abbrev pub over_budget : MemoryRecallBudget → ℕ → Selection → Bool
over_budget budget size s =
    leb budget.max_records (length s.selected)
    || ltb budget.max_chars (s.char_count + size)
    || ltb budget.max_tokens ((s.char_count + size) / max_chars_per_token)

module _ (record_size : MemoryRecord → ℕ) where
  -- The loop over the eligible records; it breaks at the first that is over the budget.
  unfoldable pub select : MemoryRecallBudget → List MemoryRecord → Selection → Selection
  select budget [] s = s
  select budget (r ∷ rs) s =
      let rest =
        select budget rs (record s {
          selected = s.selected ++ r ∷ [];
          char_count = s.char_count + record_size r;
        }) in
      if over_budget budget (record_size r) s then record s { truncated = true } else rest

  unfoldable pub recall :
      MemoryScope
      → MemoryRecallBudget
      → ℕ
      → Provider
      → Result MemoryErrorCode MemoryRecallProjection
  unfolding eligible sort_records select
  recall scope budget now p =
      let found = sort_records (eligible scope now p.records p.order) in
      let s = select budget found (record { selected = []; char_count = 0; truncated = false }) in
      ensure_available p
      >> ok (record {
        scope_fingerprint = scope.fingerprint;
        records = s.selected;
        truncated = s.truncated;
        char_count = s.char_count;
        token_estimate = s.char_count / max_chars_per_token;
      })

unfoldable pub compare_and_set :
    MemoryRecord → MemoryRecord → Provider → Result MemoryErrorCode (Bool × Provider)
compare_and_set expected replacement p =
    ensure_available p
    >> (raise_if (not (str_eq replacement.record_id expected.record_id)) record_rejected
        >> (raise_if (not (str_eq replacement.scope.fingerprint expected.scope.fingerprint))
              scope_mismatch
            >> elim (lookup expected.record_id p.records) [
              | none ↦ ok (false, p)
              | some stored ↦
                  if not (str_eq stored.fingerprint expected.fingerprint)
                  then ok (false, p)
                  else ok
                      (true, record p { records = insert expected.record_id replacement p.records })
            ]))

-- `s.discard(x)`
unfoldable pub discard : String → List String → List String
discard x [] = []
discard x (y ∷ ys) = if str_eq x y then discard x ys else y ∷ discard x ys

-- `removed` and `remaining`, with the dictionary and the set that the loop changes.
pub record Compaction : Type 0 where
  pub left : Dict MemoryRecord
  pub reserved : List String
  pub removed : ℕ
  pub remaining : List String

-- One turn of the loop of `compact`.
unfoldable pub compact_one : ℕ → String → Compaction → Compaction
unfolding discard
compact_one now id c = elim (lookup id c.left) [
  | none ↦ record c { reserved = discard id c.reserved }
  | some r ↦
      if is_expired now r
      then record c { left = erase id c.left; removed = suc c.removed }
      else record c { remaining = c.remaining ++ id ∷ [] }
]

unfoldable pub compact_all : ℕ → List String → Compaction → Compaction
unfolding compact_one
compact_all now [] c = c
compact_all now (id ∷ ids) c = compact_all now ids (compact_one now id c)

unfoldable pub compact : ℕ → Provider → Result MemoryErrorCode (ℕ × Provider)
unfolding compact_all
compact now p =
    let c =
      compact_all now p.order
        (record { left = p.records; reserved = p.expired_ids; removed = 0; remaining = [] }) in
    ensure_available p
    >> ok (c.removed, record p { records = c.left; order = c.remaining; expired_ids = c.reserved })

unfoldable pub expire : String → Provider → Result MemoryErrorCode (Bool × Provider)
expire id p =
    ensure_available p
    >> (if not (has_key id p.records)
        then ok (false, p)
        else ok (
          true,
          record p {
            records = erase id p.records;
            expired_ids = if contains id p.expired_ids then p.expired_ids else id ∷ p.expired_ids;
          },
        ))

unfoldable pub delete : String → Provider → Result MemoryErrorCode (Bool × Provider)
delete id p =
    ensure_available p
    >> (if not (has_key id p.records)
        then ok (false, p)
        else ok (true, record p { records = erase id p.records }))
