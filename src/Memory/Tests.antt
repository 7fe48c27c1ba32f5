-- ===== src/Memory/Tests.antt =====
-- Two records of a session.
use mathlib.Core.List.{Memᴰ}
use nl2data_core.Common.{ℕ, ◌≡◌, ◌≢◌, refl, ap, none, some, true, false, [], ◌∷◌, ok, err, str_eq}
use nl2data_core.Common.Dict.{lookup}
use nl2data_core.Memory.Models.{MemoryScope, MemoryRecord, MemoryRecallBudget}
use nl2data_core.Memory.Provider.{
  Provider, MemoryRecallProjection, record_rejected, append, recall, compare_and_set, compact,
  expire, delete, consider, eligible, insert_record, sort_records, select, compact_one, compact_all,
  discard,
}
use nl2data_core.Memory.Recall.{IsProjection, recall-IsProjection}
use nl2data_core.Memory.Valid.{IsValid}
use nl2data_core.Memory.Compact.{IsCompacted, compact-IsCompacted}
use nl2data_core.Memory.Ids.{compare_and_set_stale, append-delete}
use nl2data_core.Memory.Expired.{here, by_delete, append-expire}
use nl2data_core.Memory.Reach.{
  Reach, start, next, by_append, empty_provider, Reach-IsWellFormed, recall-complete,
}

abbrev scope : MemoryScope
scope = record {
  tenant_scope_fingerprint = some "t1";
  session_id = "s1";
  conversation_id = none;
  adapter_id = some "sql";
  source_id = none;
  fingerprint = "f";
}

abbrev question : MemoryScope
question = record scope { adapter_id = none }

abbrev first : MemoryRecord
first = record {
  record_id = "m1";
  scope = scope;
  payload = "orders by region";
  created_at = 10;
  expires_at = 20;
  fingerprint = "f1";
}

abbrev second : MemoryRecord
second = record first { record_id = "m2"; created_at = 5; expires_at = 50; fingerprint = "f2" }

abbrev changed : MemoryRecord
changed = record first { payload = "orders by month"; fingerprint = "f3" }

abbrev budget : MemoryRecallBudget
budget = record { max_records = 5; max_chars = 100; max_tokens = 25 }

abbrev with_first : Provider
with_first = record (empty_provider 3) { records = ("m1", first) ∷ []; order = "m1" ∷ [] }

abbrev with_both : Provider
with_both = record (empty_provider 3) {
  records = ("m1", first) ∷ ("m2", second) ∷ [];
  order = "m1" ∷ "m2" ∷ [];
}

with_both-Reach : Reach 3 with_both
unfolding append
with_both-Reach =
    next with_first with_both
      (next (empty_provider 3) with_first start
        (by_append first (empty_provider 3) with_first "m1" refl))
      (by_append second with_first with_both "m2" refl)

abbrev both : MemoryRecallProjection
both = record {
  scope_fingerprint = "f";
  records = second ∷ first ∷ [];
  truncated = false;
  char_count = 80;
  token_estimate = 20;
}

recalled : recall (λ r. 40) question budget 15 with_both ≡ ok both
unfolding recall consider eligible insert_record sort_records select
recalled = refl

-- The budget cuts the second record off.
cut_off :
    recall (λ r. 60) question budget 15 with_both
    ≡ ok (record both {
      records = second ∷ [];
      truncated = true;
      char_count = 60;
      token_estimate = 15;
    })
unfolding recall consider eligible insert_record sort_records select
cut_off = refl

-- A record that was deleted and appended again is recalled twice: its id stands twice in the order.
twice :
    recall (λ r. 40) question budget 15 (record with_first { order = "m1" ∷ "m1" ∷ [] })
    ≡ ok (record both { records = first ∷ first ∷ [] })
unfolding recall consider eligible insert_record sort_records select
twice = refl

deleted_and_appended :
    append first (record with_first { records = [] })
    ≡ ok ("m1", record with_first { order = "m1" ∷ "m1" ∷ [] })
unfolding append
deleted_and_appended = refl

-- After `expire` and `compact` the id is free again.
expired_and_compacted :
    compact 15 (record with_first { records = []; expired_ids = "m1" ∷ [] })
    ≡ ok (0, record with_first { records = []; order = [] })
unfolding compact compact_all compact_one discard
expired_and_compacted = refl

recall-IsProjection_example :
    (m : MemoryRecallProjection) × (recall (λ r. 40) question budget 15 with_both ≡ ok m)
    × IsProjection (λ r. 40) question budget 15 with_both m
recall-IsProjection_example = recall-IsProjection (λ r. 40) question budget 15 with_both refl

recall-complete_example : Memᴰ first both.records
recall-complete_example =
    recall-complete (λ r. 40) 3 with_both question budget 15 both "m1" first with_both-Reach
      recalled refl refl refl refl

Reach-IsWellFormed_example : IsValid with_both
Reach-IsWellFormed_example = Reach-IsWellFormed 3 with_both with_both-Reach

compact-IsCompacted_example :
    (n : ℕ) × (q : Provider) × (compact 30 with_both ≡ ok (n, q)) × IsCompacted 30 with_both n q
compact-IsCompacted_example =
    compact-IsCompacted 30 with_both refl (Reach-IsWellFormed 3 with_both with_both-Reach)

compare_and_set_stale_example :
    compare_and_set first second (record with_first { records = ("m1", changed) ∷ [] })
    ≢ ok (true, with_both)
unfolding compare_and_set
compare_and_set_stale_example =
    compare_and_set_stale first changed second with_first
      (record with_first { records = ("m1", changed) ∷ [] }) with_both
      (λ h. cc (ap (str_eq first.fingerprint) h)) refl

-- The first of two records has expired.
abbrev with_second : Provider
with_second = record with_both { records = ("m2", second) ∷ []; expired_ids = "m1" ∷ [] }

-- Then the other was deleted.
abbrev with_none : Provider
with_none = record with_second { records = [] }

append-expire_example : append first with_none ≡ err record_rejected
unfolding expire delete
append-expire_example =
    append-expire "m1" first with_both with_second with_none refl
      (by_delete with_second with_none "m2" true here refl) refl

append-delete_example :
    (t : Provider) × (append first (record with_first { records = [] }) ≡ ok ("m1", t))
    × (lookup "m1" t.records ≡ some first)
unfolding delete append
append-delete_example =
    append-delete "m1" first with_first (record with_first { records = [] })
      (Reach-IsWellFormed 3 with_first (
        next (empty_provider 3) with_first start
          (by_append first (empty_provider 3) with_first "m1" refl)))
      refl refl refl
