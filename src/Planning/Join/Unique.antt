-- ===== src/Planning/Join/Unique.antt =====
-- `len(ids) == len(set(ids))` holds only where no edge id is repeated.
use mathlib.Core.List.{Memᴰ}
use nl2data_core.Common.{
  add_to_set_self, add_to_set, set_of, ◌+◌, ◌≤◌, ◌≡◌, sym, ◌∙◌, subst, inl, inr, Bool-cases, true,
  false, List, [], ◌∷◌, ◌++◌, String, arith, any-append, contains, str_eq, str_eq_iff, length,
  length-append, ap,
}
use nl2data_core.Planning.Join.Graph.{RelationshipEdge, RelationshipGraph}
use nl2data_core.Planning.Join.Planner.{edge_ids, graph_ok}
use nl2data_core.Planning.Join.Plan.{IsUnique}
use nl2data_core.Planning.Join.Progress.{}

add_to_set-length_le : (x : String) (s : List String) → length (add_to_set x s) ≤ length s + 1
add_to_set-length_le x s = ground (arith, length-append s (x ∷ []))

set_of-length_le : (xs s : List String) → length (set_of xs s) ≤ length s + length xs
unfolding set_of
set_of-length_le [] s = omega arith
set_of-length_le (x ∷ xs) s =
    omega (arith, set_of-length_le xs (add_to_set x s), add_to_set-length_le x s)

-- With no repetition, each text is new to the set that it is added to.
all_new :
    (xs s : List String)
    → length s + length xs ≤ length (set_of xs s)
    → (x : String) → contains x xs ≡ true
    → contains x s ≡ false
unfolding set_of
all_new [] s h x m = cc
all_new (y ∷ xs) s h x m = elim (Bool-cases (contains y s)) [
  | inl already ↦ absurd (ground (arith, set_of-length_le xs s, already))
  | inr new ↦ elim (Bool-cases (str_eq x y)) [
    | inl same ↦ rw ((str_eq_iff x y).0 same) new
    | inr other ↦ ground (
      arith,
      any-append (str_eq x) s (y ∷ []),
      all_new xs (s ++ y ∷ []) (ground (arith, length-append s (y ∷ []), new)) x (rw other at m),
    )
  ]
]

edge_ids-contains :
    (e : RelationshipEdge) (edges : List RelationshipEdge)
    → Memᴰ e edges
    → contains e.edge_id (edge_ids edges) ≡ true
unfolding edge_ids
edge_ids-contains e [] m = elim m [ ]
edge_ids-contains e (x ∷ edges) (Memᴰ.head h) =
    rw h (ground (arith, str_eq_iff x.edge_id x.edge_id))
edge_ids-contains e (x ∷ edges) (Memᴰ.tail m) = ground (arith, edge_ids-contains e edges m)

IsUnique-from :
    (edges : List RelationshipEdge) (s : List String)
    → length s + length (edge_ids edges) ≤ length (set_of (edge_ids edges) s)
    → IsUnique edges
unfolding edge_ids set_of
IsUnique-from [] s h e f m n q = elim m [ ]
IsUnique-from (x ∷ edges) s h e f m n q =
    go (λ k l. IsUnique-from edges (add_to_set x.edge_id s) longer e f k l q) m n
  where
    longer :
        length (add_to_set x.edge_id s) + length (edge_ids edges)
        ≤ length (set_of (edge_ids edges) (add_to_set x.edge_id s))
    longer = omega (arith, add_to_set-length_le x.edge_id s)

    clash : (g : RelationshipEdge) → Memᴰ g edges → g.edge_id ≡ x.edge_id → ⊥
    clash g k same = cc (
      sym (add_to_set_self x.edge_id s),
      subst (λ i. contains i (add_to_set x.edge_id s) ≡ false) same
          (all_new (edge_ids edges) (add_to_set x.edge_id s) longer g.edge_id
            (edge_ids-contains g edges k)),
    )

    go : (Memᴰ e edges → Memᴰ f edges → e ≡ f) → Memᴰ e (x ∷ edges) → Memᴰ f (x ∷ edges) → e ≡ f
    go rec (Memᴰ.head a) (Memᴰ.head b) = a ∙ sym b
    go rec (Memᴰ.head a) (Memᴰ.tail k) = absurd (clash f k (sym q ∙ ap RelationshipEdge.edge_id a))
    go rec (Memᴰ.tail k) (Memᴰ.head b) = absurd (clash e k (q ∙ ap RelationshipEdge.edge_id b))
    go rec (Memᴰ.tail k) (Memᴰ.tail l) = rec k l

-- A graph that can be constructed repeats no edge id.
pub graph_ok-IsUnique : (graph : RelationshipGraph) → graph_ok graph ≡ true → IsUnique graph.edges
unfolding graph_ok
graph_ok-IsUnique graph h = IsUnique-from graph.edges [] (ground arith)
