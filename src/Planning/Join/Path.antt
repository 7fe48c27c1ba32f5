-- ===== src/Planning/Join/Path.antt =====
-- A path that `_shortest_path` returns leads over edges of the graph from a start entity to the
-- target, and it always returns.
use nl2data_core.Common.{
  ℕ, zero, suc, ◌+◌, ◌≡◌, refl, sym, subst, inl, inr, Bool-cases, Option-cases, true, some, List,
  [], ◌∷◌, String, ok, arith, contains, ltb, length,
}
use nl2data_core.Common.Dict.{lookup, has_key}
use nl2data_core.Planning.Join.Graph.{RelationshipEdge, Hop, Adjacency}
use nl2data_core.Planning.Join.Search.{
  Search, walk_back, PathResult, unreachable, ambiguous, found, read_path, shortest_path,
}
use nl2data_core.Planning.Join.Hops.{IsHop, AllHops}
use nl2data_core.Planning.Join.Invariant.{Inv}
use nl2data_core.Planning.Join.Fuel.{search_from_starts}

-- Hops of the graph, each from where the one before it ended.
abbrev pub Chain : List RelationshipEdge → String → List Hop → String → Type 0
Chain edges from [] to = from ≡ to
Chain edges from (hop ∷ hops) to = IsHop edges from hop × Chain edges hop.entity hops to

-- A path from one of the starts.
pub record Leads (edges : List RelationshipEdge) (starts : List String) (path : List Hop)
    (to : String) : Type 0 where
  pub start : String
  pub starts_there : contains start starts ≡ true
  pub chain : Chain edges start path to

module _ (edges : List RelationshipEdge) (starts : List String) where
  walk_back-Leads :
      (s : Search) (d : ℕ) (current : String) (path : List Hop) (to : String)
      → Inv edges starts s
      → lookup current s.distances ≡ some d
      → Chain edges current path to
      → (p : List Hop) × (walk_back d starts s.parents current path ≡ ok p)
        × Leads edges starts p to
  unfolding walk_back
  walk_back-Leads s zero current path to v e c = elim (v.origin current zero e) [
    | inl start ↦ (path, rw start, record { start = current; starts_there = start; chain = c })
    | inr b ↦ absurd (omega (arith, b.one_more))
  ]
  walk_back-Leads s (suc d) current path to v e c = elim (Bool-cases (contains current starts)) [
    | inl start ↦ (path, rw start, record { start = current; starts_there = start; chain = c })
    | inr inside ↦ elim (v.origin current (suc d) e) [
      | inl start ↦ cc (sym start)
      | inr b ↦
          let (p, back, leads) =
            walk_back-Leads s d b.hop.entity (record b.hop { entity = current } ∷ path) to v
              (subst (λ n. lookup b.hop.entity s.distances ≡ some n) (omega (arith, b.one_more))
                b.parent_distance)
              (b.valid, c) in
          (p, ground (arith, b.parent, back), leads)
    ]
  ]

  -- What `_shortest_path` may return.
  abbrev pub Answers : String → PathResult → Type 0
  Answers to unreachable = Unit
  Answers to ambiguous = Unit
  Answers to (found path) = Leads edges starts path to

  read_path-Answers :
      (to : String) (s : Search)
      → Inv edges starts s
      → (r : PathResult) × (read_path starts to s ≡ ok r) × Answers to r
  unfolding read_path
  read_path-Answers to s v = elim (Option-cases (lookup to s.distances)) [
    | inl unseen ↦ (unreachable, ground arith, tt)
    | inr (d, e) ↦ elim (Option-cases (lookup to s.counts)) [
      | inl missing ↦ absurd (ground (arith, v.counted to))
      | inr (c, counted) ↦ elim (Bool-cases (ltb 1 c)) [
        | inl many ↦ (ambiguous, ground arith, tt)
        | inr one ↦
            let (p, back, leads) = walk_back-Leads s d to [] to v e refl in
            (found p, ground (arith, back), leads)
      ]
    ]
  ]

  -- `_shortest_path` always returns, and a path that it returns leads from a start to the target.
  pub shortest_path-Answers :
      (adjacency : Adjacency) (to : String)
      → AllHops edges adjacency
      → (r : PathResult) × (shortest_path (length edges + length edges) adjacency starts to ≡ ok r)
        × Answers to r
  unfolding shortest_path
  shortest_path-Answers adjacency to hops = elim (Bool-cases (contains to starts)) [
    | inl already ↦
        (found [], rw already refl, record { start = to; starts_there = already; chain = refl })
    | inr outside ↦ elim (Bool-cases (has_key to adjacency)) [
      | inr absent ↦ (unreachable, rw (outside, absent) refl, tt)
      | inl present ↦
          let (t, searched, v) = search_from_starts edges starts adjacency hops in
          let (r, read, answers) = read_path-Answers to t v in
          (r, rw (outside, present, searched) read, answers)
    ]
  ]
