-- ===== src/Workflow/Sqlite/Tests.antt =====
-- A table with one workflow and a key, and the theorems about snapshots and the SQLite store at them.
use Prim.Native.String.{◌++◌ as str_append, count as str_length}
use text.Mathlib.TextLemmas.{length-append}
use nl2data_core.Common.{
  ℕ, zero, suc, ◌≡◌, ◌≢◌, refl, ap, none, some, List, [], ◌∷◌, String, ok, err, arith, contains,
}
use nl2data_core.Common.Dict.{lookup}
use nl2data_core.Common.Text.{is_identifier, is_fingerprint, is_key_char}
use nl2data_core.Workflow.Models.{created, state_ok, budget_ok, event_ok, scope_ok}
use nl2data_core.Workflow.Tests.{new_state, queued_state, done_state}
use nl2data_core.Workflow.Snapshot.{Iso, serialize_snapshot}
use nl2data_core.Workflow.Snapshot.Reading.{deserialize_snapshot}
use nl2data_core.Workflow.Snapshot.RoundTrip.{IsConstructed, canonical, deserialize-serialize}
use nl2data_core.Workflow.Contract.{create_entry, update_entry, Implements}
use nl2data_core.Workflow.Sqlite.{StateRow, new_row, create, update}
use nl2data_core.Workflow.Sqlite.Refinement.{error_class, IsTable, entry, update-Implements}
use nl2data_core.Workflow.Sqlite.Creation.{create-Implements}
use nl2data_core.Workflow.Sqlite.Idempotency.{
  IdempotencyRecord, Binding, new_record, reserve_idempotency, complete_idempotency,
  get_idempotency, is_key, completed_record, already_completed,
}
use nl2data_core.Workflow.Sqlite.Idempotency.Once.{reserve_once}
use nl2data_core.Workflow.Sqlite.Idempotency.Completion.{complete_once}
use nl2data_core.Workflow.Sqlite.Batches.{keys_where, delete, delete_batch, find}
use nl2data_core.Workflow.Sqlite.Cleanup.{Database, cleanup, Kept, cleanup-Kept}
use nl2data_core.Workflow.Sqlite.Reach.{
  creating, reserving, completing, new, call, IsSound, Reach-IsSound,
}

-- An instant as a text of that length.
unfoldable pub ticks : ℕ → String
ticks zero = ""
ticks (suc t) = str_append "x" (ticks t)

pub length-ticks : (t : ℕ) → str_length (ticks t) ≡ t
unfolding ticks
length-ticks zero = refl
length-ticks (suc t) = omega (arith, length-append "x" (ticks t), length-ticks t)

abbrev pub iso : Iso
iso = record {
  isoformat = ticks;
  parse = λ t. some (str_length t);
  parse-isoformat = λ t. ap some (length-ticks t);
}

pub new-IsConstructed : IsConstructed new_state
unfolding state_ok budget_ok is_identifier is_fingerprint
new-IsConstructed = record {
  state = refl;
  budget = refl;
  events = tt;
  compatibility = λ k. omega arith;
}

queued-IsConstructed : IsConstructed queued_state
unfolding state_ok budget_ok event_ok is_identifier is_fingerprint
queued-IsConstructed = record {
  state = refl;
  budget = refl;
  events = (refl, tt);
  compatibility = λ k. omega arith;
}

deserialize-serialize_example :
    (deserialize_snapshot iso 0 (serialize_snapshot iso queued_state) ≡ ok (canonical queued_state))
    × ((x : String)
        → contains x (canonical queued_state).evidence_fingerprints
          ≡ contains x queued_state.evidence_fingerprints)
    × ((x : String)
        → contains x (canonical queued_state).gate_evidence_fingerprints
          ≡ contains x queued_state.gate_evidence_fingerprints)
    × ((k : String)
        → lookup k (canonical queued_state).compatibility_fingerprints
          ≡ lookup k queued_state.compatibility_fingerprints)
deserialize-serialize_example = deserialize-serialize iso 0 queued_state queued-IsConstructed

abbrev pub table : List StateRow
table = new_row iso 5 new_state "" ∷ []

-- `create` inserts it.
inserted : create iso 5 new_state [] ≡ ok table
unfolding create
inserted = refl

pub table-IsTable : IsTable iso table
table-IsTable = (
  record {
    state = new_state;
    constructed = new-IsConstructed;
    written = refl;
    same_status = refl;
    same_scope = refl;
    namespaced = refl;
  },
  tt,
)

update-Implements_example :
    Implements
      (entry iso 8)
      error_class
      none
      "wf-1"
      table
      (update iso 8 "wf-1" created queued_state (some 1) none table)
      (update_entry 8 created (canonical queued_state) (some 1) (entry iso 8 none "wf-1" table))
unfolding scope_ok
update-Implements_example =
    update-Implements iso 8 "wf-1" created queued_state (some 1) none table table-IsTable
      queued-IsConstructed refl

create-Implements_example :
    Implements
      (entry iso 8)
      error_class
      none
      "wf-1"
      table
      (create iso 8 queued_state table)
      (create_entry 8 (canonical queued_state) (entry iso 8 none "wf-1" table))
create-Implements_example =
    create-Implements iso 8 queued_state table table-IsTable queued-IsConstructed

abbrev binding : Binding
binding = record { key = "key-1"; request_id = "req-1"; workflow_id = "wf-1"; scope = none }

abbrev record_1 : IdempotencyRecord
record_1 = new_record 5 (some (ticks 50)) "" binding

held : reserve_idempotency iso 5 (some (ticks 50)) binding [] ≡ ok (record_1, record_1 ∷ [])
unfolding reserve_idempotency is_key is_key_char is_identifier
held = refl

reserve_once_example :
    (reserve_idempotency iso 9 none binding (record_1 ∷ []) ≡ ok (record_1, record_1 ∷ []))
    × ((c : Binding) (x : IdempotencyRecord × List IdempotencyRecord)
        → c.key ≡ "key-1"
        → c.scope ≡ none
        → reserve_idempotency iso 9 none c (record_1 ∷ []) ≡ ok x
        → (c.request_id ≡ "req-1") × (c.workflow_id ≡ "wf-1") × (x ≡ (record_1, record_1 ∷ [])))
unfolding ticks
reserve_once_example = reserve_once iso 5 9 (some (ticks 50)) none binding [] held refl

abbrev outcome : String
outcome = "sha256:0123456789abcdef0123456789abcdef0123456789abcdef0123456789abcdef"

abbrev record_2 : IdempotencyRecord
record_2 = completed_record 7 "wf-1" outcome record_1

over :
    complete_idempotency 7 "key-1" "wf-1" outcome none (record_1 ∷ [])
    ≡ ok (record_2, record_2 ∷ [])
unfolding complete_idempotency is_key is_key_char is_identifier is_fingerprint
over = refl

complete_once_example :
    (get_idempotency "key-1" none (record_2 ∷ []) ≡ ok (some record_2))
    × (record_2.terminal_outcome_fingerprint ≡ some outcome)
    × ((later : ℕ) (other : String)
        → complete_idempotency later "key-1" "wf-1" other none (record_2 ∷ [])
          ≡ err (already_completed "key-1"))
    × ((later : ℕ) (id other : String) (x : IdempotencyRecord × List IdempotencyRecord)
        → complete_idempotency later "key-1" id other none (record_2 ∷ []) ≢ ok x)
complete_once_example = complete_once 7 "key-1" "wf-1" outcome none (record_1 ∷ []) over

-- One finished workflow, one live one and two keys, of which one expired.
abbrev record_3 : IdempotencyRecord
record_3 = record record_1 { idempotency_key = "key-3"; expires_at = none }

abbrev database : Database
database = record {
  states =
      new_row iso 5 new_state ""
      ∷ new_row iso 6 (record done_state { workflow_id = "wf-2" }) ""
      ∷ [];
  records = record_1 ∷ record_3 ∷ [];
}

abbrev in_order : List (String × String) → List (String × String)
in_order xs = xs

cleaned :
    cleanup iso in_order (ticks 7) (ticks 60) 10 database
    ≡ ok (2, record { states = table; records = record_3 ∷ [] })
unfolding ticks cleanup keys_where delete_batch delete
cleaned = refl

cleanup-Kept_example :
    (removed : ℕ) × (after : Database) × (cleanup iso in_order (ticks 7) (ticks 60) 10 database
      ≡ ok (removed, after))
    × Kept iso (ticks 7) (ticks 60) 10 database after removed
unfolding find
cleanup-Kept_example =
    cleanup-Kept iso in_order (ticks 7) (ticks 60) 10 database
      (record { same_length = λ xs. refl; same_keys = λ n k xs. refl }) (refl, (refl, tt))
      (refl, (refl, tt)) (omega arith)

Reach-IsSound_example : IsSound iso in_order (record { states = table; records = record_2 ∷ [] })
Reach-IsSound_example = Reach-IsSound iso in_order (
    call
      (call (call new (creating 5 new_state new-IsConstructed inserted))
        (reserving 5 (some (ticks 50)) binding held))
      (completing 7 "key-1" "wf-1" outcome none over))
