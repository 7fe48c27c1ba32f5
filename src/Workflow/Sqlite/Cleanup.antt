-- ===== src/Workflow/Sqlite/Cleanup.antt =====
-- `SQLiteStateStore.cleanup` (workflow/sqlite_store.py), over both tables in one transaction. The bounds
-- are the texts of what the caller gives, with which SQLite compares the texts of the columns. The order
-- in which it finds the rows of a query without `ORDER BY` is the argument `scan`.
use nl2data_core.Common.{
  ℕ, ◌+◌, ◌≤◌, ◌<◌, min, ◌≡◌, refl, sym, ap, ◌∙◌, Bool, true, false, ◌&&◌, some, List, [], ◌∷◌,
  String, Result, ok, ◌>>◌, raise_if, arith, take, length, length-take, ltb, is_some,
}
use nl2data_core.Common.Sort.{str_leb}
use nl2data_core.Workflow.Models.{is_terminal}
use nl2data_core.Workflow.Snapshot.{Iso}
use nl2data_core.Workflow.Sqlite.{StateRow, SqlError, value_error, select_state}
use nl2data_core.Workflow.Sqlite.Idempotency.{IdempotencyRecord, is_expired, select_record}
use nl2data_core.Workflow.Sqlite.Batches.{
  in_batch, keys_where, delete_batch, find, IsKeyed, find-kept, keys_where-find,
}
use nl2data_core.Workflow.Sqlite.Batches.Counts.{
  occurrences, in_batch-occurrences, occurrences-take_le, IsScan, count_where, length-keys_where,
  occurrences-le_one, length-delete_batch,
}

-- The two tables.
pub record Database : Type 0 where
  pub states : List StateRow
  pub records : List IdempotencyRecord

abbrev pub state_namespace : StateRow → String
state_namespace r = r.scope_namespace

abbrev pub state_id : StateRow → String
state_id r = r.workflow_id

abbrev pub record_namespace : IdempotencyRecord → String
record_namespace r = r.scope_namespace

abbrev pub record_key : IdempotencyRecord → String
record_key r = r.idempotency_key

module _ (iso : Iso) where
  -- `WHERE status IN (...) AND updated_at <= ?`
  abbrev pub is_ended : String → StateRow → Bool
  is_ended terminal_before r =
      is_terminal r.status && str_leb (iso.isoformat r.updated_at) terminal_before

  module _ (scan : List (String × String) → List (String × String)) where
    -- `SELECT ... WHERE ... LIMIT ?`
    abbrev pub ended_batch : String → ℕ → List StateRow → List (String × String)
    ended_batch terminal_before max_records rows =
        take max_records
          (scan (keys_where state_namespace state_id (is_ended terminal_before) rows))

    abbrev pub expired_batch : String → ℕ → List IdempotencyRecord → List (String × String)
    expired_batch expired_before max_records rows =
        take max_records
          (scan (keys_where record_namespace record_key (is_expired expired_before) rows))

    unfoldable pub cleanup : String → String → ℕ → Database → Result SqlError (ℕ × Database)
    cleanup terminal_before expired_before max_records db =
        let ended = ended_batch terminal_before max_records db.states in
        let expired = expired_batch expired_before max_records db.records in
        raise_if (ltb max_records 1) value_error
        >> ok (
          length ended + length expired,
          record {
            states = delete_batch state_namespace state_id ended db.states;
            records = delete_batch record_namespace record_key expired db.records;
          },
        )

-- The queries by key of the other methods.
pub select_state-find :
    (ns id : String) (rows : List StateRow)
    → select_state ns id rows ≡ find state_namespace state_id ns id rows
unfolding select_state find
select_state-find ns id [] = refl
select_state-find ns id (r ∷ rows) = rw (select_state-find ns id rows) refl

pub select_record-find :
    (ns key : String) (rows : List IdempotencyRecord)
    → select_record ns key rows ≡ find record_namespace record_key ns key rows
unfolding select_record find
select_record-find ns key [] = refl
select_record-find ns key (r ∷ rows) = rw (select_record-find ns key rows) refl

-- What a batch of `limit` keys of the rows that pass `p` does to a table.
record Removes {R : Type 0} (ns key : R → String) (p : R → Bool) (limit : ℕ)
    (batch : List (String × String)) (rows : List R) : Type 0 where
  size : length batch ≡ min limit (count_where p rows)
  shrinks : length (delete_batch ns key batch rows) + min limit (count_where p rows) ≡ length rows
  keeps :
      (n k : String) (r : R)
      → find ns key n k rows ≡ some r
      → p r ≡ false
      → find ns key n k (delete_batch ns key batch rows) ≡ some r

module _ {R : Type 0} (ns key : R → String) (p : R → Bool) (limit : ℕ)
    (scan : List (String × String) → List (String × String)) (scans : IsScan scan) where
  abbrev batch_of : List R → List (String × String)
  batch_of rows = take limit (scan (keys_where ns key p rows))

  occurrences-batch_le :
      (rows : List R) (n k : String)
      → occurrences n k (batch_of rows) ≤ occurrences n k (keys_where ns key p rows)
  occurrences-batch_le rows n k = omega (
    arith,
    occurrences-take_le limit n k (scan (keys_where ns key p rows)),
    scans.same_keys n k (keys_where ns key p rows),
  )

  in_batch-keys_where :
      (rows : List R) (n k : String)
      → 0 < occurrences n k (batch_of rows)
      → in_batch n k (keys_where ns key p rows) ≡ true
  in_batch-keys_where rows n k h =
      ground (
        arith,
        h,
        occurrences-batch_le rows n k,
        in_batch-occurrences n k (keys_where ns key p rows),
      )

  length-batch : (rows : List R) → length (batch_of rows) ≡ min limit (count_where p rows)
  length-batch rows =
      length-take limit (scan (keys_where ns key p rows))
      ∙ ap (min limit)
          (scans.same_length (keys_where ns key p rows) ∙ length-keys_where ns key p rows)

  batch-Removes :
      (rows : List R) → IsKeyed ns key rows → Removes ns key p limit (batch_of rows) rows
  batch-Removes rows u = record {
    size = length-batch rows;
    shrinks =
        ap (λ n. length (delete_batch ns key (batch_of rows) rows) + n) (sym (length-batch rows))
        ∙ length-delete_batch ns key (batch_of rows) rows u
            (λ n k.
              omega (arith, occurrences-batch_le rows n k, occurrences-le_one ns key p n k rows u))
            (λ n k h.
              let (r, found, _) =
                keys_where-find ns key p n k rows u (in_batch-keys_where rows n k h) in
              ap is_some found);
    keeps = λ n k r found fails.
        find-kept ns key p n k (batch_of rows) rows u
          (λ m j b.
            in_batch-keys_where rows m j
              (ground (arith, b, in_batch-occurrences m j (batch_of rows))))
          found fails;
  }

-- What a cleanup leaves. Of each table, as many rows are removed as there are ended workflows, or expired
-- records, up to the limit, and each row that is not such a one is read as before.
pub record Kept (iso : Iso) (terminal_before expired_before : String) (max_records : ℕ)
    (before after : Database) (removed : ℕ) : Type 0 where
  pub states_removed :
      length after.states
        + min max_records (count_where (is_ended iso terminal_before) before.states)
      ≡ length before.states
  pub records_removed :
      length after.records
        + min max_records (count_where (is_expired expired_before) before.records)
      ≡ length before.records
  pub counted :
      removed + length after.states + length after.records
      ≡ length before.states + length before.records
  pub live :
      (ns id : String) (r : StateRow)
      → select_state ns id before.states ≡ some r
      → is_ended iso terminal_before r ≡ false
      → select_state ns id after.states ≡ some r
  pub valid :
      (ns key : String) (r : IdempotencyRecord)
      → select_record ns key before.records ≡ some r
      → is_expired expired_before r ≡ false
      → select_record ns key after.records ≡ some r

-- With a limit of at least one and whatever order SQLite finds rows in, `cleanup` of tables with primary
-- keys succeeds. Of each table it removes as many rows as there are terminal workflows updated by
-- `terminal_before`, or records that expire by `expired_before`, but at most the limit, and returns the
-- number of both. Every other row is read as before. The times are compared as their texts.
pub cleanup-Kept :
    (iso : Iso) (scan : List (String × String) → List (String × String))
    (terminal_before expired_before : String) (max_records : ℕ) (db : Database)
    → IsScan scan
    → IsKeyed state_namespace state_id db.states
    → IsKeyed record_namespace record_key db.records
    → 1 ≤ max_records
    → (removed : ℕ) × (after : Database) × (cleanup iso scan terminal_before expired_before
          max_records db
        ≡ ok (removed, after))
      × Kept iso terminal_before expired_before max_records db after removed
unfolding cleanup
cleanup-Kept iso scan terminal_before expired_before max_records db scans keyed keyed_records h =
    let ended = ended_batch iso scan terminal_before max_records db.states in
    let expired = expired_batch iso scan expired_before max_records db.records in
    let after : Database = record {
      states = delete_batch state_namespace state_id ended db.states;
      records = delete_batch record_namespace record_key expired db.records;
    } in
    let one : ltb max_records 1 ≡ false = ground (arith, h) in
    let s =
      batch-Removes state_namespace state_id (is_ended iso terminal_before) max_records scan scans
        db.states keyed in
    let r =
      batch-Removes record_namespace record_key (is_expired expired_before) max_records scan scans
        db.records keyed_records in
    (
      length ended + length expired,
      after,
      rw one refl,
      record {
        states_removed = s.shrinks;
        records_removed = r.shrinks;
        counted = omega (arith, s.size, r.size, s.shrinks, r.shrinks);
        live = λ ns id row found other.
            select_state-find ns id after.states
            ∙ s.keeps ns id row (sym (select_state-find ns id db.states) ∙ found) other;
        valid = λ ns key row found other.
            select_record-find ns key after.records
            ∙ r.keeps ns key row (sym (select_record-find ns key db.records) ∙ found) other;
      },
    )
