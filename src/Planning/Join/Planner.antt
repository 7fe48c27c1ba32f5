-- ===== src/Planning/Join/Planner.antt =====
-- `JoinPlanner.plan`. Of the view and the intent (planning/validation.py, ai/models.py) the fields
-- that the planner reads; the sets are lists without repetition. The texts of the reasons are data.
use Prim.Native.String.{◌++◌ as str_append}
use nl2data_core.Common.{
  ℕ, ◌+◌, Bool, ◌&&◌, not, Option, none, some, List, [], ◌∷◌, ◌++◌, String, Result, ok, err, ◌>>=◌,
  if◌then◌else◌, contains, length, str_eq, is_nonempty, add_to_set, set_of, ◌==◌,
}
use nl2data_core.Common.Text.{is_identifier}
use nl2data_core.Common.Sort.{str_leb, sorted}
use nl2data_core.Planning.Join.Graph.{
  RelationshipEdge, RelationshipGraph, JoinStep, PlannerError, invalid_plan, make_step, Hop,
  Adjacency, build_adjacency,
}
use nl2data_core.Planning.Join.Search.{PathResult, unreachable, ambiguous, found, shortest_path}

pub record AuthorizedView : Type 0 where
  pub source_id : String
  pub root_entity_ids : List String
  pub allowed_relationships : List String

pub record MultiEntityIntent : Type 0 where
  pub intent_id : String
  pub source_id : String
  pub entity_ids : List String

pub record LogicalJoinPlan : Type 0 where
  pub plan_id : String
  pub source_id : String
  pub root_entity_id : String
  pub steps : List JoinStep

pub data Reason : Type 0 where
  intent_source graph_source : Reason
  outside_entity outside_relationship : String → Reason

-- `JoinPlannerOutcome`, by its kind.
pub data JoinPlannerOutcome : Type 0 where
  planned : LogicalJoinPlan → JoinPlannerOutcome
  not_found : String → JoinPlannerOutcome
  ambiguous_path : String → JoinPlannerOutcome
  unauthorized : Reason → JoinPlannerOutcome

unfoldable pub edge_ids : List RelationshipEdge → List String
edge_ids [] = []
edge_ids (e ∷ edges) = e.edge_id ∷ edge_ids edges

-- `RelationshipGraph._unique_edge_ids` returns.
unfoldable pub graph_ok : RelationshipGraph → Bool
unfolding edge_ids
graph_ok graph = length (edge_ids graph.edges) == length (set_of (edge_ids graph.edges) [])

-- `s - {x}`
unfoldable pub remove : String → List String → List String
remove x [] = []
remove x (y ∷ ys) = if str_eq x y then remove x ys else y ∷ remove x ys

-- `min` of a set with at least `x` in it.
unfoldable pub minimum : String → List String → String
minimum x [] = x
minimum x (y ∷ ys) = minimum (if str_leb x y then x else y) ys

-- The fields of `LogicalJoinPlan` are identifiers.
unfoldable pub plan_ids_ok : MultiEntityIntent → String → Bool
plan_ids_ok intent root =
    is_identifier (str_append "plan-" intent.intent_id)
    && is_identifier intent.source_id
    && is_identifier root

unfoldable pub make_plan :
    MultiEntityIntent → String → List JoinStep → Result PlannerError JoinPlannerOutcome
make_plan intent root steps =
    if plan_ids_ok intent root
    then ok (
        planned (record {
          plan_id = str_append "plan-" intent.intent_id;
          source_id = intent.source_id;
          root_entity_id = root;
          steps = steps;
        }))
    else err invalid_plan

-- `steps`, `visited_entities` and `used_edge_ids`.
pub record Progress : Type 0 where
  pub steps : List JoinStep
  pub visited : List String
  pub used : List String

-- One turn of the loop over a path.
unfoldable pub take_hop : Hop → Progress → Result PlannerError Progress
take_hop hop p =
    if contains hop.edge.edge_id p.used
    then ok p
    else (make_step hop.edge hop.direction >>= λ step. ok (record {
      steps = p.steps ++ step ∷ [];
      visited = add_to_set hop.edge.right_entity_id (add_to_set hop.edge.left_entity_id p.visited);
      used = add_to_set hop.edge.edge_id p.used;
    }))

unfoldable pub take_hops : List Hop → Progress → Result PlannerError Progress
take_hops [] p = ok p
take_hops (hop ∷ hops) p = take_hop hop p >>= take_hops hops

-- The loop over the targets: where it ends without an early return, the progress made.
pub data Connected : Type 0 where
  through : Progress → Connected
  stopped : JoinPlannerOutcome → Connected

-- What is done with the result of `_shortest_path` for one target.
unfoldable pub follow : String → Progress → PathResult → Result PlannerError Connected
follow target p unreachable = ok (stopped (not_found target))
follow target p ambiguous = ok (stopped (ambiguous_path target))
follow target p (found path) = take_hops path p >>= λ q. ok (through q)

-- An early return ends the loop over the targets.
abbrev pub resume :
    (Progress → Result PlannerError Connected) → Connected → Result PlannerError Connected
resume next (stopped o) = ok (stopped o)
resume next (through q) = next q

unfoldable pub connect : ℕ → Adjacency → List String → Progress → Result PlannerError Connected
connect endpoints adjacency [] p = ok (through p)
connect endpoints adjacency (target ∷ targets) p =
    if contains target p.visited
    then connect endpoints adjacency targets p
    else (shortest_path endpoints adjacency p.visited target
        >>= follow target p
        >>= resume (connect endpoints adjacency targets))

unfoldable pub finish :
    MultiEntityIntent → String → Connected → Result PlannerError JoinPlannerOutcome
unfolding make_plan
finish intent root (stopped o) = ok o
finish intent root (through p) = make_plan intent root p.steps

-- The loop over the required entities; a view without root entities allows all of them.
unfoldable pub check_entities : AuthorizedView → List String → Option Reason
check_entities view [] = none
check_entities view (x ∷ xs) =
    if is_nonempty view.root_entity_ids && not (contains x view.root_entity_ids)
    then some (outside_entity x)
    else check_entities view xs

-- The loop over all edges of the graph.
unfoldable pub check_relationships : AuthorizedView → List RelationshipEdge → Option Reason
check_relationships view [] = none
check_relationships view (e ∷ edges) =
    if not (contains e.relationship_id view.allowed_relationships)
    then some (outside_relationship e.relationship_id)
    else check_relationships view edges

-- Both loops, in their order.
unfoldable pub check_authorized :
    AuthorizedView → List String → List RelationshipEdge → Option Reason
check_authorized view required edges = elim (check_entities view (sorted required)) [
  | none ↦ check_relationships view edges
  | some reason ↦ some reason
]

-- Joining two or more required entities, once they are authorized.
unfoldable pub connect_all :
    List RelationshipEdge
    → MultiEntityIntent
    → List String
    → String
    → Result PlannerError JoinPlannerOutcome
connect_all edges intent required root =
    connect (length edges + length edges) (build_adjacency edges) (sorted (remove root required))
      (record { steps = []; visited = root ∷ []; used = [] })
    >>= finish intent root

-- The part of `plan` behind the checks of the sources, on the set of required entities. The first
-- two clauses are `_empty_plan`.
unfoldable pub plan_required :
    RelationshipGraph
    → AuthorizedView
    → MultiEntityIntent
    → List String
    → Result PlannerError JoinPlannerOutcome
unfolding make_plan check_entities check_relationships check_authorized
plan_required graph view intent [] = make_plan intent "" []
plan_required graph view intent (x ∷ []) = make_plan intent x []
plan_required graph view intent (x ∷ y ∷ others) =
    elim (check_authorized view (x ∷ y ∷ others) graph.edges) [
      | some reason ↦ ok (unauthorized reason)
      | none ↦ connect_all graph.edges intent (x ∷ y ∷ others) (minimum x (y ∷ others))
    ]

unfoldable pub plan :
    RelationshipGraph → AuthorizedView → MultiEntityIntent → Result PlannerError JoinPlannerOutcome
plan graph view intent =
    if not (str_eq intent.source_id view.source_id)
    then ok (unauthorized intent_source)
    else if not (str_eq graph.source_id view.source_id)
    then ok (unauthorized graph_source)
    else plan_required graph view intent (set_of intent.entity_ids [])
