-- ===== src/Lib.antt =====
-- Verification of nl2data-core: governed answering of data questions.
--
-- The program turns a question into a structured intent, plans it as a logical IR over an
-- authorized view, compiles and runs it through an adapter, and tracks all this as a workflow whose
-- state is kept in a store. Memory keeps facts of earlier questions of a session. Modelled are the
-- parts that decide: the life cycle of a workflow, its store, the expression trees of the IR, the
-- planner of joins, the memory provider, the registry of plugins, and the drafts of semantic
-- bundles that are reviewed before they are published. The workflow that a runner advances is
-- written to a store, in memory or in SQLite as a snapshot; the join plan and the expressions
-- belong to the logical query that it compiles; the drafts become the semantic model that the views
-- are taken from. Plugins declare the capabilities that adapters and providers are chosen by.
--
-- - Common: Boolean tests, results of calls that may raise, lists, sets, Python dictionaries in
--   insertion order, `sorted`, JSON documents, and the text patterns of the pydantic models. Numbers
--   are native.
-- - Workflow/Models: statuses, stages, budgets, events and states with their construction checks
--   (src/nl2data_core/workflow/models.py).
-- - Workflow/Transitions: the transition table, `transition` and `checkpoint`
--   (src/nl2data_core/workflow/transitions.py). Children: every branch of them, the replay of an
--   event log, and runs as sequences of steps.
-- - Workflow/Store: `InMemoryStateStore` (src/nl2data_core/workflow/store.py), its dictionaries
--   explicit. Children: well-formed stores, what a write does to later calls, cleanup, sequences of
--   calls, and the refinement of the contract.
-- - Workflow/Snapshot: `serialize_snapshot` and `deserialize_snapshot`
--   (src/nl2data_core/workflow/durable.py) with `serialize_safe` and the validation of
--   src/nl2data_core/workflow/models.py, in Reading. A snapshot is the document that its text stands for.
-- - Workflow/Contract: what the protocol `StateStore` (src/nl2data_core/workflow/store.py) promises of
--   the entry of one workflow in one scope.
-- - Workflow/Sqlite: `SQLiteStateStore` (src/nl2data_core/workflow/sqlite_store.py), its two tables lists
--   of rows and its statements functions on them. Children: Idempotency has the keys of requests,
--   Cleanup and Batches the bounded deletions, Refinement and Creation the contract, Reach sequences of
--   calls.
-- - Workflow/Runner: `_step` and `_advance_to_running` (src/nl2data_core/workflow/runner.py), which compose
--   the transitions with the SQLite store. Advance and Progress are about what they leave, and when they
--   go through.
-- - Planning/Expressions: the trees of src/nl2data_core/planning/ir/expressions.py. Syntax has the node
--   classes, Validation their construction checks, Traversal the tree functions; Subterms
--   describes the nodes of a tree, and Nodes, Fields, Depth and Size are about the functions.
-- - Planning/Join: `JoinPlanner.plan` (src/nl2data_core/planning/join_planner.py) over the graph of
--   src/nl2data_core/planning/models.py. Graph has the adjacency lists, Search `_shortest_path`, Planner
--   the planner; Hops, Invariant, Fuel and Path are about the search, Progress, Plan, Unique and
--   Outcome about plans.
-- - Memory: `InMemoryMemoryProvider` (src/nl2data_core/memory/inmemory.py) on the records of
--   src/nl2data_core/memory/models.py. Models and Provider have the code; Recall, Compact, Valid, Ids,
--   Expired and Reach are about projections, compaction, well-formed stores, pairs of calls, calls after
--   expire, and sequences of calls.
-- - Assembly: drafts and their life cycle (src/nl2data_core/assembly/models.py, lifecycle.py and
--   authorization.py). Assertions, Draft and Lifecycle have the code; Approval is about single
--   operations, Reach about sequences of them.
-- - Plugins: `PluginRegistry` and the version ranges (src/nl2data_core/plugins/registry.py) on the
--   manifests of src/nl2data_core/plugins/models.py. Resolve and Reach are about what is found and about
--   sequences of registrations.
--
-- Exceptions are values of `Result`; a call that raises leaves the state as it was where the code
-- raises before it writes, which the models show, since they write in the order of the code. Readings
-- of the clock are arguments. Construction of a pydantic model is a Boolean test of its validators.
--
-- Fuel: `while queue` in `_shortest_path` runs on twice the number of edges plus the number of start
-- entities, since each round takes an entity that was put on the queue once; the loop back along the
-- parents runs on the distance of its entity, which each turn lowers by one. The other loops are
-- structural.
--
-- Left out: fingerprints are fields or arguments, not computed (SHA-256 of a JSON rendering), and
-- the size of a memory record is an argument, as it is the length of such a rendering. The host's
-- hook that authorizes an operation on a draft is an argument too. The locks of the stores are left
-- out: each call is one step, and of SQLite a transaction. So are the connection to a database, its
-- schema version and the errors of sqlite3; the order of a query without `ORDER BY` and the texts
-- of datetimes are arguments. `json.dumps` and `json.loads` are the standard library's. Of the
-- views and the intents only what the planner reads is here. The SQL adapters, the AI providers,
-- the execution that the runner governs, the other parts of assembly, governance, views, metadata,
-- compilation, telemetry and the optional packages are not modelled.
pub mod Common
pub mod Workflow
pub mod Planning
pub mod Plugins
pub mod Memory
pub mod Assembly
