-- ===== src/Planning/Join/Hops.antt =====
-- The adjacency lists hold hops of the graph, each under the entity that it leaves.
use mathlib.Core.List.{Memᴰ}
use nl2data_core.Common.{
  ◌≡◌, refl, sym, subst, Bool-cases, inl, inr, true, List, [], ◌∷◌, String, arith, All, All-append,
  str_eq, str_eq_iff, contains, get_or_else, length, ◌+◌,
}
use nl2data_core.Common.Dict.{lookup, lookup-insert}
use nl2data_core.Common.Sort.{str_leb}
use nl2data_core.Planning.Join.Graph.{
  RelationshipEdge, Direction, forward, reverse, Hop, Adjacency, add_hop, add_edge, add_edges,
  insert_hop, sort_hops, sort_all, build_adjacency,
}

abbrev pub source_of : RelationshipEdge → Direction → String
source_of e forward = e.left_entity_id
source_of e reverse = e.right_entity_id

abbrev pub target_of : RelationshipEdge → Direction → String
target_of e forward = e.right_entity_id
target_of e reverse = e.left_entity_id

-- A hop over an edge of the graph, from `node` to its entity.
pub record IsHop (edges : List RelationshipEdge) (node : String) (hop : Hop) : Type 0 where
  pub of_graph : Memᴰ hop.edge edges
  pub leaves : source_of hop.edge hop.direction ≡ node
  pub enters : target_of hop.edge hop.direction ≡ hop.entity

abbrev pub neighbors : String → Adjacency → List Hop
neighbors node adjacency = get_or_else (lookup node adjacency) []

abbrev pub AllHops : List RelationshipEdge → Adjacency → Type 0
AllHops edges adjacency = (node : String) → All (IsHop edges node) (neighbors node adjacency)

-- All entities at an end of an edge.
abbrev pub endpoints : List RelationshipEdge → List String
endpoints [] = []
endpoints (e ∷ edges) = e.left_entity_id ∷ e.right_entity_id ∷ endpoints edges

pub length-endpoints :
    (edges : List RelationshipEdge) → length (endpoints edges) ≡ length edges + length edges
length-endpoints [] = omega arith
length-endpoints (e ∷ edges) = omega (arith, length-endpoints edges)

endpoint_of :
    (e : RelationshipEdge) (d : Direction) (edges : List RelationshipEdge)
    → Memᴰ e edges
    → contains (target_of e d) (endpoints edges) ≡ true
endpoint_of e d [] m = elim m [ ]
endpoint_of e forward (x ∷ edges) (Memᴰ.head h) =
    rw h (ground (arith, str_eq_iff x.right_entity_id x.right_entity_id))
endpoint_of e reverse (x ∷ edges) (Memᴰ.head h) =
    rw h (ground (arith, str_eq_iff x.left_entity_id x.left_entity_id))
endpoint_of e d (x ∷ edges) (Memᴰ.tail m) = ground (arith, endpoint_of e d edges m)

pub IsHop-endpoints :
    {edges : List RelationshipEdge} {node : String} {hop : Hop}
    → IsHop edges node hop
    → contains hop.entity (endpoints edges) ≡ true
IsHop-endpoints {edges} {hop} h =
    subst (λ x. contains x (endpoints edges) ≡ true) h.enters
      (endpoint_of hop.edge hop.direction edges h.of_graph)

module _ (edges : List RelationshipEdge) where
  AllHops-add_hop :
      (entity : String) (hop : Hop) (adjacency : Adjacency)
      → IsHop edges entity hop
      → AllHops edges adjacency
      → AllHops edges (add_hop entity hop adjacency)
  AllHops-add_hop entity hop adjacency h all node =
      rw lookup-insert (elim (Bool-cases (str_eq entity node)) [
        | inr other ↦ rw other (all node)
        | inl same ↦ rw same (
            All-append (IsHop edges node) (neighbors entity adjacency) (hop ∷ [])
              (subst (λ x. All (IsHop edges node) (neighbors x adjacency))
                (sym ((str_eq_iff entity node).0 same)) (all node))
              (subst (λ x. IsHop edges x hop) ((str_eq_iff entity node).0 same) h, tt))
      ])

  AllHops-add_edges :
      (es : List RelationshipEdge) (adjacency : Adjacency)
      → ((e : RelationshipEdge) → Memᴰ e es → Memᴰ e edges)
      → AllHops edges adjacency
      → AllHops edges (add_edges es adjacency)
  unfolding add_edges
  AllHops-add_edges [] adjacency within all = all
  AllHops-add_edges (e ∷ es) adjacency within all =
      let of_graph = within e (Memᴰ.head refl) in
      AllHops-add_edges es (add_edge e adjacency) (λ x m. within x (Memᴰ.tail m))
        (AllHops-add_hop e.right_entity_id _ _
          (record { of_graph = of_graph; leaves = refl; enters = refl })
          (AllHops-add_hop e.left_entity_id _ _
            (record { of_graph = of_graph; leaves = refl; enters = refl }) all))

module _ (P : Hop → Type 0) where
  All-insert_hop : (h : Hop) (hops : List Hop) → P h → All P hops → All P (insert_hop h hops)
  unfolding insert_hop
  All-insert_hop h [] p all = (p, tt)
  All-insert_hop h (k ∷ hops) p all = elim (Bool-cases (str_leb h.edge.edge_id k.edge.edge_id)) [
    | inl before ↦ rw before (p, all)
    | inr after ↦ rw after (all.0, All-insert_hop h hops p all.1)
  ]

  All-sort_hops : (hops : List Hop) → All P hops → All P (sort_hops hops)
  unfolding sort_hops
  All-sort_hops [] all = tt
  All-sort_hops (h ∷ hops) all = All-insert_hop h (sort_hops hops) all.0 (All-sort_hops hops all.1)

  All-sort_all :
      (node : String) (adjacency : Adjacency)
      → All P (neighbors node adjacency)
      → All P (neighbors node (sort_all adjacency))
  unfolding sort_all
  All-sort_all node [] all = tt
  All-sort_all node ((k, hops) ∷ adjacency) all = elim (Bool-cases (str_eq node k)) [
    | inl same ↦ rw same (All-sort_hops hops (rw same at all))
    | inr other ↦ rw other (All-sort_all node adjacency (rw other at all))
  ]

pub build_adjacency-AllHops :
    (edges : List RelationshipEdge) → AllHops edges (build_adjacency edges)
unfolding build_adjacency
build_adjacency-AllHops edges node =
    All-sort_all (IsHop edges node) node (add_edges edges [])
      (AllHops-add_edges edges edges [] (λ e m. m) (λ n. tt) node)
