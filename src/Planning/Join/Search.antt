-- ===== src/Planning/Join/Search.antt =====
-- `_shortest_path`: a breadth-first search from all start entities at once, that counts the shortest
-- paths to each entity. The sets are lists; the loops run on fuel.
use nl2data_core.Common.{
  ℕ, zero, suc, ◌+◌, none, some, List, [], ◌∷◌, ◌++◌, String, Result, ok, err, ◌>>=◌, if◌then◌else◌,
  get_or_else, ◌==◌, ltb, contains, length,
}
use nl2data_core.Common.Dict.{Dict, lookup, has_key, insert}
use nl2data_core.Planning.Join.Graph.{PlannerError, key_error, no_fuel, Hop, Adjacency}

-- `distances`, `counts`, `parents` and `queue`. The entity of a hop in `parents` is the parent.
pub record Search : Type 0 where
  pub distances : Dict ℕ
  pub counts : Dict ℕ
  pub parents : Dict (List Hop)
  pub queue : List String

-- `d[k]`
abbrev pub subscript {ℓ} : {V : Type ℓ} → String → Dict V → Result PlannerError V
subscript k d = elim (lookup k d) [ none ↦ err key_error | some v ↦ ok v ]

-- One turn of the loop over the start entities.
abbrev pub start_one : Adjacency → String → Search → Search
start_one adjacency start s =
    if has_key start adjacency
    then record s {
      distances = insert start 0 s.distances;
      counts = insert start 1 s.counts;
      queue = s.queue ++ start ∷ [];
    }
    else s

unfoldable pub start_from : Adjacency → List String → Search → Search
start_from adjacency [] s = s
start_from adjacency (start ∷ starts) s = start_from adjacency starts (start_one adjacency start s)

-- `neighbor not in distances`: its first path.
abbrev pub discover : String → Hop → ℕ → ℕ → Search → Search
discover node hop d c s = record {
  distances = insert hop.entity (d + 1) s.distances;
  counts = insert hop.entity c s.counts;
  parents = insert hop.entity (record hop { entity = node } ∷ []) s.parents;
  queue = s.queue ++ hop.entity ∷ [];
}

-- `distances[neighbor] == distances[node] + 1`: further paths of the same length.
abbrev pub join_paths : String → Hop → ℕ → ℕ → Search → Search
join_paths node hop c known s = record s {
  counts = insert hop.entity (known + c) s.counts;
  parents =
      insert hop.entity
        (get_or_else (lookup hop.entity s.parents) [] ++ record hop { entity = node } ∷ [])
        s.parents;
}

-- One turn of the loop over the neighbors of `node`.
unfoldable pub relax : String → Hop → Search → Result PlannerError Search
relax node hop s = subscript node s.distances >>= λ d. subscript node s.counts >>= λ c.
    elim (lookup hop.entity s.distances) [
      | none ↦ ok (discover node hop d c s)
      | some e ↦
          if e == d + 1
          then (subscript hop.entity s.counts >>= λ known. ok (join_paths node hop c known s))
          else ok s
    ]

unfoldable pub relax_all : String → List Hop → Search → Result PlannerError Search
relax_all node [] s = ok s
relax_all node (hop ∷ hops) s = relax node hop s >>= relax_all node hops

-- `while queue`
unfoldable pub search : ℕ → Adjacency → Search → Result PlannerError Search
search zero adjacency s = elim s.queue [ [] ↦ ok s | node ∷ queue ↦ err no_fuel ]
search (suc fuel) adjacency s = elim s.queue [
  | [] ↦ ok s
  | node ∷ queue ↦
      relax_all node (get_or_else (lookup node adjacency) []) (record s { queue = queue })
      >>= search fuel adjacency
]

-- The loop that follows the parents back from `current`; the fuel is a distance.
unfoldable pub walk_back :
    ℕ → List String → Dict (List Hop) → String → List Hop → Result PlannerError (List Hop)
walk_back zero starts parents current path =
    if contains current starts then ok path else err no_fuel
walk_back (suc fuel) starts parents current path =
    let back = subscript current parents >>= λ hops. elim hops [
      | [] ↦ err key_error
      | hop ∷ others ↦
          walk_back fuel starts parents hop.entity (record hop { entity = current } ∷ path)
    ] in
    if contains current starts then ok path else back

pub data PathResult : Type 0 where
  unreachable ambiguous : PathResult
  found : List Hop → PathResult

unfoldable pub read_path : List String → String → Search → Result PlannerError PathResult
read_path starts end s = elim (lookup end s.distances) [
  | none ↦ ok unreachable
  | some d ↦ subscript end s.counts >>= λ c.
      if ltb 1 c
      then ok ambiguous
      else (walk_back d starts s.parents end [] >>= λ path. ok (found path))
]

abbrev pub no_search : Search
no_search = record { distances = []; counts = []; parents = []; queue = [] }

-- `_shortest_path`; a hop of the result names the entity that it leads to. `endpoints` bounds the
-- entities that the search can discover: twice the number of edges.
unfoldable pub shortest_path : ℕ → Adjacency → List String → String → Result PlannerError PathResult
unfolding start_from relax relax_all search walk_back read_path
shortest_path endpoints adjacency starts end =
    if contains end starts
    then ok (found [])
    else if has_key end adjacency
    then (search (endpoints + length starts) adjacency (start_from adjacency starts no_search)
        >>= read_path starts end)
    else ok unreachable
