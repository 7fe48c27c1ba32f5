-- ===== src/Planning/Join/Graph.antt =====
-- The graph that the planner reads (planning/models.py), the steps that it makes
-- (planning/ir/models.py), and its adjacency lists. The cardinality of an edge and the fingerprints
-- are left out: the planner does not read them.
use Prim.Native.String.{◌++◌ as str_append}
use nl2data_core.Common.{
  Bool, ◌&&◌, not, List, [], ◌∷◌, ◌++◌, String, Result, ok, ◌>>◌, raise_if, if◌then◌else◌,
  get_or_else,
}
use nl2data_core.Common.Text.{is_identifier}
use nl2data_core.Common.Dict.{Dict, lookup, insert}
use nl2data_core.Common.Sort.{str_leb}

pub record RelationshipEdge : Type 0 where
  pub edge_id : String
  pub relationship_id : String
  pub left_entity_id : String
  pub right_entity_id : String
  pub left_field_id : String
  pub right_field_id : String

pub record RelationshipGraph : Type 0 where
  pub source_id : String
  pub edges : List RelationshipEdge

pub record JoinStep : Type 0 where
  pub step_id : String
  pub relationship_id : String
  pub left_entity_id : String
  pub right_entity_id : String
  pub left_field_id : String
  pub right_field_id : String

-- The two values of the `direction` texts.
pub data Direction : Type 0 where
  forward reverse : Direction

-- What stops the planner without an outcome: pydantic's `ValidationError`, a missing key, or the
-- bound on the rounds of a loop.
pub data PlannerError : Type 0 where
  invalid_step invalid_plan key_error no_fuel : PlannerError

-- The fields of `JoinStep` are identifiers.
step_ok : JoinStep → Bool
step_ok s =
    is_identifier s.step_id
    && is_identifier s.relationship_id
    && is_identifier s.left_entity_id
    && is_identifier s.right_entity_id
    && is_identifier s.left_field_id
    && is_identifier s.right_field_id

abbrev pub step_of : RelationshipEdge → Direction → JoinStep
step_of e forward = record {
  step_id = str_append "step-" e.edge_id;
  relationship_id = e.relationship_id;
  left_entity_id = e.left_entity_id;
  right_entity_id = e.right_entity_id;
  left_field_id = e.left_field_id;
  right_field_id = e.right_field_id;
}
step_of e reverse = record {
  step_id = str_append "step-" e.edge_id;
  relationship_id = e.relationship_id;
  left_entity_id = e.right_entity_id;
  right_entity_id = e.left_entity_id;
  left_field_id = e.right_field_id;
  right_field_id = e.left_field_id;
}

-- `_make_step`; construction validates.
unfoldable pub make_step : RelationshipEdge → Direction → Result PlannerError JoinStep
unfolding step_ok
make_step e d = raise_if (not (step_ok (step_of e d))) invalid_step >> ok (step_of e d)

-- An edge, how it is traversed, and the entity at its other end.
pub record Hop : Type 0 where
  pub edge : RelationshipEdge
  pub direction : Direction
  pub entity : String

abbrev pub Adjacency : Type 0
Adjacency = Dict (List Hop)

-- `adjacency.setdefault(entity, []).append(hop)`
abbrev pub add_hop : String → Hop → Adjacency → Adjacency
add_hop entity hop adjacency =
    insert entity (get_or_else (lookup entity adjacency) [] ++ hop ∷ []) adjacency

abbrev pub add_edge : RelationshipEdge → Adjacency → Adjacency
add_edge e adjacency =
    add_hop e.right_entity_id (record { edge = e; direction = reverse; entity = e.left_entity_id })
      (add_hop e.left_entity_id
        (record { edge = e; direction = forward; entity = e.right_entity_id }) adjacency)

unfoldable pub add_edges : List RelationshipEdge → Adjacency → Adjacency
add_edges [] adjacency = adjacency
add_edges (e ∷ edges) adjacency = add_edges edges (add_edge e adjacency)

-- `sort(key=lambda item: item[0].edge_id)`, a stable sort.
unfoldable pub insert_hop : Hop → List Hop → List Hop
insert_hop h [] = h ∷ []
insert_hop h (k ∷ hops) =
    if str_leb h.edge.edge_id k.edge.edge_id then h ∷ k ∷ hops else k ∷ insert_hop h hops

unfoldable pub sort_hops : List Hop → List Hop
sort_hops [] = []
sort_hops (h ∷ hops) = insert_hop h (sort_hops hops)

unfoldable pub sort_all : Adjacency → Adjacency
sort_all [] = []
sort_all ((entity, hops) ∷ adjacency) = (entity, sort_hops hops) ∷ sort_all adjacency

-- `_build_adjacency`
unfoldable pub build_adjacency : List RelationshipEdge → Adjacency
unfolding add_edges insert_hop sort_hops sort_all
build_adjacency edges = sort_all (add_edges edges [])
