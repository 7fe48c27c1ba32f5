-- ===== src/Planning/Join/Fuel.antt =====
-- The search starts in its invariant, and its fuel is enough: each round takes an entity from the
-- queue, and an entity is queued once.
use nl2data_core.Common.{
  ℕ, zero, suc, ◌+◌, ◌≤◌, ◌≡◌, refl, ap, List-cases, inl, inr, Bool-cases, true, List, [], ◌∷◌,
  ◌++◌, String, ok, arith, All, All-append, All-map, str_eq_iff, contains, length, length-append,
}
use nl2data_core.Common.Dict.{
  Dict, has_key, insert, lookup-insert, lookup-insert_self, has_key-insert,
}
use nl2data_core.Planning.Join.Graph.{RelationshipEdge, Adjacency}
use nl2data_core.Planning.Join.Search.{Search, start_one, start_from, search, no_search}
use nl2data_core.Planning.Join.Hops.{AllHops, neighbors, endpoints, length-endpoints}
use nl2data_core.Planning.Join.Invariant.{fresh, Inv, measure, relax_all-Relaxed}

fresh-le-length : (distances : Dict ℕ) (xs : List String) → fresh distances xs ≤ length xs
fresh-le-length distances [] = omega arith
fresh-le-length distances (x ∷ xs) = ground (arith, fresh-le-length distances xs)

All-contained_in :
    (xs ys : List String)
    → ((x : String) → contains x xs ≡ true → contains x ys ≡ true)
    → All (λ x. contains x ys ≡ true) xs
All-contained_in [] ys h = tt
All-contained_in (x ∷ xs) ys h =
    (h x (ground (arith, str_eq_iff x x)), All-contained_in xs ys (λ z m. h z (ground arith)))

All-contained : (xs : List String) → All (λ x. contains x xs ≡ true) xs
All-contained xs = All-contained_in xs xs (λ x m. m)

module _ (edges : List RelationshipEdge) (starts : List String) where
  -- Before the first round an entity with a distance is a start.
  record Starting (s : Search) : Type 0 where
    queued : All (λ n. has_key n s.distances ≡ true) s.queue
    counted : (n : String) → has_key n s.distances ≡ true → has_key n s.counts ≡ true
    all_start : (n : String) → has_key n s.distances ≡ true → contains n starts ≡ true

  start_from-Starting :
      (adjacency : Adjacency) (xs : List String) (s : Search)
      → All (λ x. contains x starts ≡ true) xs
      → Starting s
      → Starting (start_from adjacency xs s)
  unfolding start_from
  start_from-Starting adjacency [] s within v = v
  start_from-Starting adjacency (x ∷ xs) s within v = elim (Bool-cases (has_key x adjacency)) [
    | inr absent ↦ rw absent (start_from-Starting adjacency xs s within.1 v)
    | inl known ↦
        let u : Search = record s {
          distances = insert x 0 s.distances;
          counts = insert x 1 s.counts;
          queue = s.queue ++ x ∷ [];
        } in
        let w : Starting u = record {
          queued =
              All-append (λ n. has_key n (insert x 0 s.distances) ≡ true) s.queue (x ∷ [])
                (All-map _ _ s.queue (λ n k. has_key-insert x n 0 s.distances k) v.queued)
                (rw lookup-insert_self refl, tt);
          counted = λ n k.
              rw lookup-insert (ground (arith, lookup-insert x n 0 s.distances, v.counted n));
          all_start = λ n k.
              ground
                (arith, str_eq_iff x n, lookup-insert x n 0 s.distances, v.all_start n, within.0);
        } in
        rw known (start_from-Starting adjacency xs u within.1 w)
  ]

  start_one-length :
      (adjacency : Adjacency) (x : String) (s : Search)
      → length (start_one adjacency x s).queue ≤ length s.queue + 1
  start_one-length adjacency x s = ground (arith, length-append s.queue (x ∷ []))

  start_from-length :
      (adjacency : Adjacency) (xs : List String) (s : Search)
      → length (start_from adjacency xs s).queue ≤ length s.queue + length xs
  unfolding start_from
  start_from-length adjacency [] s = omega arith
  start_from-length adjacency (x ∷ xs) s = omega (
    arith,
    start_from-length adjacency xs (start_one adjacency x s),
    start_one-length adjacency x s,
  )

  Starting-Inv : (s : Search) → Starting s → Inv edges starts s
  Starting-Inv s v = record {
    queued = v.queued;
    counted = v.counted;
    origin = λ n d found. inl (v.all_start n (ground arith));
  }

  -- With as much fuel as its measure, the search ends by an empty queue, in its invariant.
  search_enough :
      (fuel : ℕ) (adjacency : Adjacency) (s : Search)
      → AllHops edges adjacency
      → Inv edges starts s
      → measure edges starts s ≤ fuel
      → (t : Search) × (search fuel adjacency s ≡ ok t) × Inv edges starts t
  unfolding search
  search_enough zero adjacency s hops v m = elim (List-cases s.queue) [
    | inl empty ↦ (s, rw empty refl, v)
    | inr (node, queue, e) ↦ absurd (omega (arith, ap length e))
  ]
  search_enough (suc fuel) adjacency s hops v m = elim (List-cases s.queue) [
    | inl empty ↦ (s, rw empty refl, v)
    | inr (node, queue, e) ↦
        let known : All (λ n. has_key n s.distances ≡ true) (node ∷ queue) = rw e at v.queued in
        let popped : Inv edges starts (record s { queue = queue }) = record {
          queued = known.1;
          counted = v.counted;
          origin = λ n d found. elim (v.origin n d found) [
            | inl start ↦ inl start
            | inr b ↦ inr (record {
              hop = b.hop;
              others = b.others;
              parent = b.parent;
              valid = b.valid;
              closer = b.closer;
              parent_distance = b.parent_distance;
              one_more = b.one_more;
            })
          ];
        } in
        let (t, turns, r) =
          relax_all-Relaxed edges starts node (neighbors node adjacency)
            (record s { queue = queue }) popped (hops node) known.0 in
        let (u, done, w) =
          search_enough fuel adjacency t hops r.inv (omega (arith, r.no_more, ap length e)) in
        (u, rw (e, turns) done, w)
  ]

  -- `_shortest_path` gives its search enough fuel.
  pub search_from_starts :
      (adjacency : Adjacency)
      → AllHops edges adjacency
      → (t : Search) × (search
            (length edges + length edges + length starts)
            adjacency
            (start_from adjacency starts no_search)
          ≡ ok t)
        × Inv edges starts t
  search_from_starts adjacency hops =
      let v =
        start_from-Starting adjacency starts no_search (All-contained starts)
          (record { queued = tt; counted = λ n k. cc; all_start = λ n k. cc }) in
      search_enough (length edges + length edges + length starts) adjacency
        (start_from adjacency starts no_search) hops (Starting-Inv _ v)
        (omega (
          arith,
          start_from-length adjacency starts no_search,
          fresh-le-length (start_from adjacency starts no_search).distances (endpoints edges),
          length-endpoints edges,
        ))
