-- ===== src/Planning/Join/Invariant.antt =====
-- What holds of the breadth-first search while it runs.
use nl2data_core.Common.{
  ℕ, suc, ◌+◌, ◌≤◌, ◌≡◌, refl, subst, ◌⊎◌, inl, inr, Bool-cases, Option-cases, true, none, some,
  List, [], ◌∷◌, ◌++◌, String, ok, arith, All, All-append, All-map, str_eq, str_eq_iff, contains,
  if◌then◌else◌, length, length-append, ◌==◌,
}
use nl2data_core.Common.Dict.{Dict, lookup, has_key, insert, lookup-insert, lookup-insert_self}
use nl2data_core.Planning.Join.Graph.{RelationshipEdge, Hop}
use nl2data_core.Planning.Join.Search.{Search, discover, join_paths, relax, relax_all}
use nl2data_core.Planning.Join.Hops.{IsHop, endpoints, IsHop-endpoints}

-- How many of the entities have no distance yet.
abbrev pub fresh : Dict ℕ → List String → ℕ
fresh distances [] = 0
fresh distances (x ∷ xs) =
    if has_key x distances then fresh distances xs else suc (fresh distances xs)

fresh-insert_le :
    (k : String) (d : ℕ) (distances : Dict ℕ) (xs : List String)
    → fresh (insert k d distances) xs ≤ fresh distances xs
fresh-insert_le k d distances [] = omega arith
fresh-insert_le k d distances (x ∷ xs) =
    ground (arith, fresh-insert_le k d distances xs, lookup-insert k x d distances)

fresh-insert_lt :
    (k : String) (d : ℕ) (distances : Dict ℕ) (xs : List String)
    → contains k xs ≡ true
    → lookup k distances ≡ none
    → suc (fresh (insert k d distances) xs) ≤ fresh distances xs
fresh-insert_lt k d distances [] h n = cc
fresh-insert_lt k d distances (x ∷ xs) h n = elim (Bool-cases (str_eq k x)) [
  | inl same ↦
      rw (← (str_eq_iff k x).0 same)
        (ground (arith, fresh-insert_le k d distances xs, lookup-insert_self k d distances))
  | inr other ↦ ground (arith, fresh-insert_lt k d distances xs, lookup-insert k x d distances)
]

module _ (edges : List RelationshipEdge) (starts : List String) where
  -- The first parent of an entity: one hop back, one step closer.
  pub record Back (s : Search) (node : String) (d : ℕ) : Type 0 where
    pub hop : Hop
    pub others : List Hop
    pub parent : lookup node s.parents ≡ some (hop ∷ others)
    pub valid : IsHop edges hop.entity (record hop { entity = node })
    pub closer : ℕ
    pub parent_distance : lookup hop.entity s.distances ≡ some closer
    pub one_more : d ≡ closer + 1

  pub record Inv (s : Search) : Type 0 where
    pub queued : All (λ n. has_key n s.distances ≡ true) s.queue
    pub counted : (n : String) → has_key n s.distances ≡ true → has_key n s.counts ≡ true
    pub origin :
        (n : String) (d : ℕ)
        → lookup n s.distances ≡ some d
        → (contains n starts ≡ true) ⊎ Back s n d

  abbrev pub measure : Search → ℕ
  measure s = length s.queue + fresh s.distances (endpoints edges)

  -- What one turn of the inner loop keeps.
  pub record Relaxed (s t : Search) : Type 0 where
    pub inv : Inv t
    pub keeps : (n : String) → has_key n s.distances ≡ true → has_key n t.distances ≡ true
    pub no_more : measure t ≤ measure s

  module _ (node : String) (hop : Hop) (d c : ℕ) (s : Search) (v : Inv s) (h : IsHop edges node hop)
      (e : lookup node s.distances ≡ some d) where
    discover-keeps :
        (n : String)
        → has_key n s.distances ≡ true
        → has_key n (insert hop.entity (d + 1) s.distances) ≡ true
    discover-keeps n k = rw lookup-insert (ground arith)

    discover-Back :
        lookup hop.entity s.distances ≡ none → Back (discover node hop d c s) hop.entity (d + 1)
    discover-Back unseen = record {
      hop = record hop { entity = node };
      others = [];
      parent = lookup-insert_self hop.entity (record hop { entity = node } ∷ []) s.parents;
      valid = h;
      closer = d;
      parent_distance = rw lookup-insert (ground (arith, str_eq_iff hop.entity node));
      one_more = refl;
    }

    discover-Back_old :
        (n : String) (k : ℕ)
        → lookup hop.entity s.distances ≡ none
        → lookup n s.distances ≡ some k
        → Back s n k
        → Back (discover node hop d c s) n k
    discover-Back_old n k unseen old b = record {
      hop = b.hop;
      others = b.others;
      parent = rw lookup-insert (ground (arith, str_eq_iff hop.entity n, b.parent));
      valid = b.valid;
      closer = b.closer;
      parent_distance =
          rw lookup-insert (ground (arith, str_eq_iff hop.entity b.hop.entity, b.parent_distance));
      one_more = b.one_more;
    }

    discover-origin :
        lookup hop.entity s.distances ≡ none
        → (n : String) (k : ℕ) → lookup n (discover node hop d c s).distances ≡ some k
        → (contains n starts ≡ true) ⊎ Back (discover node hop d c s) n k
    discover-origin unseen n k found =
        let now : (if str_eq hop.entity n then some (d + 1) else lookup n s.distances) ≡ some k =
          rw lookup-insert at found in
        elim (Bool-cases (str_eq hop.entity n)) [
          | inl same ↦
              let last : d + 1 ≡ k = ground arith in
              inr (
                subst (λ x. Back (discover node hop d c s) x k) ((str_eq_iff hop.entity n).0 same)
                  (subst (λ x. Back (discover node hop d c s) hop.entity x) last
                    (discover-Back unseen)))
          | inr other ↦ elim (v.origin n k (rw other at now)) [
            | inl start ↦ inl start
            | inr b ↦ inr (discover-Back_old n k unseen (rw other at now) b)
          ]
        ]

    discover-Relaxed : lookup hop.entity s.distances ≡ none → Relaxed s (discover node hop d c s)
    discover-Relaxed unseen = record {
      inv = record {
        queued =
            All-append (λ n. has_key n (insert hop.entity (d + 1) s.distances) ≡ true) s.queue
              (hop.entity ∷ []) (All-map _ _ s.queue discover-keeps v.queued)
              (rw lookup-insert_self refl, tt);
        counted = λ n k.
            rw lookup-insert
              (ground (arith, lookup-insert hop.entity n (d + 1) s.distances, v.counted n));
        origin = discover-origin unseen;
      };
      keeps = discover-keeps;
      no_more = omega (
        arith,
        length-append s.queue (hop.entity ∷ []),
        fresh-insert_lt hop.entity (d + 1) s.distances (endpoints edges) (IsHop-endpoints h) unseen,
      );
    }

    join_paths-Back :
        (known : ℕ) (n : String) (k : ℕ) → Back s n k → Back (join_paths node hop c known s) n k
    join_paths-Back known n k b = elim (Bool-cases (str_eq hop.entity n)) [
      | inr other ↦ record {
        hop = b.hop;
        others = b.others;
        parent = rw lookup-insert (rw other b.parent);
        valid = b.valid;
        closer = b.closer;
        parent_distance = b.parent_distance;
        one_more = b.one_more;
      }
      | inl same ↦ record {
        hop = b.hop;
        others = b.others ++ record hop { entity = node } ∷ [];
        parent = rw lookup-insert (rw same (rw ((str_eq_iff hop.entity n).0 same) (rw b.parent)));
        valid = b.valid;
        closer = b.closer;
        parent_distance = b.parent_distance;
        one_more = b.one_more;
      }
    ]

    join_paths-Relaxed : (known : ℕ) → Relaxed s (join_paths node hop c known s)
    join_paths-Relaxed known = record {
      inv = record {
        queued = v.queued;
        counted = λ n k. rw lookup-insert (ground (arith, v.counted n k));
        origin = λ n k found. elim (v.origin n k found) [
          | inl start ↦ inl start
          | inr b ↦ inr (join_paths-Back known n k b)
        ];
      };
      keeps = λ n k. k;
      no_more = omega arith;
    }

  pub Relaxed-refl : (s : Search) → Inv s → Relaxed s s
  Relaxed-refl s v = record { inv = v; keeps = λ n k. k; no_more = omega arith }

  -- One turn never meets a missing key.
  relax-Relaxed :
      (node : String) (hop : Hop) (s : Search)
      → Inv s
      → IsHop edges node hop
      → has_key node s.distances ≡ true
      → (t : Search) × (relax node hop s ≡ ok t) × Relaxed s t
  unfolding relax
  relax-Relaxed node hop s v h k = elim (Option-cases (lookup node s.distances)) [
    | inl missing ↦ absurd (ground arith)
    | inr (d, e) ↦ elim (Option-cases (lookup node s.counts)) [
      | inl missing ↦ absurd (ground (arith, v.counted node k))
      | inr (c, counted) ↦ elim (Option-cases (lookup hop.entity s.distances)) [
        | inl unseen ↦
            (discover node hop d c s, ground arith, discover-Relaxed node hop d c s v h e unseen)
        | inr (f, seen) ↦ elim (Bool-cases (f == d + 1)) [
          | inr longer ↦ (s, ground arith, Relaxed-refl s v)
          | inl equal ↦ elim (Option-cases (lookup hop.entity s.counts)) [
            | inl missing ↦ absurd (ground (arith, v.counted hop.entity))
            | inr (known, g) ↦ (
              join_paths node hop c known s,
              ground arith,
              join_paths-Relaxed node hop d c s v h e known,
            )
          ]
        ]
      ]
    ]
  ]

  pub relax_all-Relaxed :
      (node : String) (hops : List Hop) (s : Search)
      → Inv s
      → All (IsHop edges node) hops
      → has_key node s.distances ≡ true
      → (t : Search) × (relax_all node hops s ≡ ok t) × Relaxed s t
  unfolding relax_all
  relax_all-Relaxed node [] s v all k = (s, refl, Relaxed-refl s v)
  relax_all-Relaxed node (hop ∷ hops) s v all k =
      let (t, first, r) = relax-Relaxed node hop s v all.0 k in
      let (u, second, q) = relax_all-Relaxed node hops t r.inv all.1 (r.keeps node k) in
      (
        u,
        rw first second,
        record {
          inv = q.inv;
          keeps = λ n x. q.keeps n (r.keeps n x);
          no_more = omega (arith, r.no_more, q.no_more);
        },
      )
