-- ===== src/Planning/Join/Tests.antt =====
-- Orders, customers and regions, joined.
use nl2data_core.Common.{set_of, ◌≡◌, refl, [], ◌∷◌, ok}
use nl2data_core.Common.Text.{is_identifier}
use nl2data_core.Common.Sort.{sorted}
use nl2data_core.Planning.Join.Graph.{
  RelationshipEdge, RelationshipGraph, forward, step_of, make_step, build_adjacency,
}
use nl2data_core.Planning.Join.Search.{PathResult, shortest_path}
use nl2data_core.Planning.Join.Planner.{
  AuthorizedView, LogicalJoinPlan, MultiEntityIntent, planned, ambiguous_path, remove, minimum,
  edge_ids, graph_ok, make_plan, plan_ids_ok, take_hop, take_hops, follow, connect, finish,
  connect_all, plan_required, plan,
}
use nl2data_core.Planning.Join.Hops.{build_adjacency-AllHops}
use nl2data_core.Planning.Join.Path.{Answers, shortest_path-Answers}
use nl2data_core.Planning.Join.Progress.{Returns}
use nl2data_core.Planning.Join.Plan.{IsUnique}
use nl2data_core.Planning.Join.Unique.{graph_ok-IsUnique}
use nl2data_core.Planning.Join.Outcome.{Outcome, plan-Outcome}

abbrev to_customer : RelationshipEdge
to_customer = record {
  edge_id = "e1";
  relationship_id = "r1";
  left_entity_id = "orders";
  right_entity_id = "customers";
  left_field_id = "customer_id";
  right_field_id = "id";
}

abbrev to_region : RelationshipEdge
to_region = record {
  edge_id = "e2";
  relationship_id = "r2";
  left_entity_id = "customers";
  right_entity_id = "regions";
  left_field_id = "region_id";
  right_field_id = "id";
}

abbrev graph : RelationshipGraph
graph = record { source_id = "db"; edges = to_customer ∷ to_region ∷ [] }

abbrev view : AuthorizedView
view = record { source_id = "db"; root_entity_ids = []; allowed_relationships = "r1" ∷ "r2" ∷ [] }

abbrev intent : MultiEntityIntent
intent = record { intent_id = "i1"; source_id = "db"; entity_ids = "regions" ∷ "orders" ∷ [] }

abbrev two_joins : LogicalJoinPlan
two_joins = record {
  plan_id = "plan-i1";
  source_id = "db";
  root_entity_id = "orders";
  steps = step_of to_customer forward ∷ step_of to_region forward ∷ [];
}

plan_by : plan graph view intent ≡ ok (planned two_joins)
unfolding plan plan_required connect_all connect finish follow take_hops take_hop shortest_path
    build_adjacency make_step make_plan plan_ids_ok set_of remove minimum sorted is_identifier
plan_by = refl

-- Two edges between the same entities are two shortest paths.
ambiguous_by :
    plan
      (record { source_id = "db"; edges = to_region ∷ record to_region { edge_id = "e3" } ∷ [] })
      view
      (record { intent_id = "i1"; source_id = "db"; entity_ids = "regions" ∷ "customers" ∷ [] })
    ≡ ok (ambiguous_path "regions")
unfolding plan plan_required connect_all connect finish follow take_hops take_hop shortest_path
    build_adjacency make_step make_plan plan_ids_ok set_of remove minimum sorted is_identifier
ambiguous_by = refl

plan-Outcome_example : Returns (Outcome graph.edges view intent.entity_ids) (plan graph view intent)
unfolding graph_ok edge_ids set_of
plan-Outcome_example = plan-Outcome graph view intent refl

shortest_path-Answers_example :
    (r : PathResult) × (shortest_path 4 (build_adjacency graph.edges) ("orders" ∷ []) "regions"
      ≡ ok r)
    × Answers graph.edges ("orders" ∷ []) "regions" r
shortest_path-Answers_example =
    shortest_path-Answers graph.edges ("orders" ∷ []) (build_adjacency graph.edges) "regions"
      (build_adjacency-AllHops graph.edges)

graph_ok-IsUnique_example : IsUnique graph.edges
unfolding graph_ok edge_ids set_of
graph_ok-IsUnique_example = graph_ok-IsUnique graph refl
