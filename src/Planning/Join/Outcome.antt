-- ===== src/Planning/Join/Outcome.antt =====
-- What a plan of the planner is: a connected tree of authorized joins over all required entities.
use mathlib.Core.List.{Memᴰ}
use nl2data_core.Common.{
  set_of, set_of-all, ◌≡◌, refl, sym, subst, ap, ◌⊎◌, inl, inr, Bool-cases, Option-cases, true,
  false, none, some, List, [], ◌∷◌, String, ok, arith, All, All-map, contains, str_eq, str_eq_iff,
}
use nl2data_core.Common.Sort.{sorted, contains-sorted}
use nl2data_core.Planning.Join.Graph.{
  RelationshipEdge, RelationshipGraph, JoinStep, forward, reverse, step_of, Direction,
  build_adjacency,
}
use nl2data_core.Planning.Join.Planner.{
  AuthorizedView, MultiEntityIntent, LogicalJoinPlan, JoinPlannerOutcome, planned, not_found,
  ambiguous_path, unauthorized, graph_ok, remove, minimum, make_plan, plan_ids_ok, Progress, Reason,
  Connected, through, stopped, finish, check_relationships, check_authorized, connect_all,
  plan_required, plan,
}
use nl2data_core.Planning.Join.Hops.{build_adjacency-AllHops}
use nl2data_core.Planning.Join.Plan.{IsUnique, Reached, connect-Reached}
use nl2data_core.Planning.Join.Unique.{graph_ok-IsUnique}
use nl2data_core.Planning.Join.Progress.{
  introduced, IsConnected, Returns, Returns-bind, Returns-map, IsStepOf, IsSound,
}

abbrev IsAllowed : AuthorizedView → JoinStep → Type 0
IsAllowed view s = contains s.relationship_id view.allowed_relationships ≡ true

-- What a plan over the required entities is.
pub record IsJoin (edges : List RelationshipEdge) (view : AuthorizedView) (required : List String)
    (p : LogicalJoinPlan) : Type 0 where
  -- each step joins to an entity that the root or an earlier step introduced
  pub connected : IsConnected (p.root_entity_id ∷ []) p.steps
  -- every required entity is introduced
  pub covers :
      (x : String)
      → contains x required ≡ true
      → contains x (introduced (p.root_entity_id ∷ []) p.steps) ≡ true
  -- each step traverses an edge of the graph
  pub from_edges : All (IsStepOf edges) p.steps
  -- each step's relationship is allowed by the view
  pub allowed : All (IsAllowed view) p.steps

abbrev pub Outcome :
    List RelationshipEdge → AuthorizedView → List String → JoinPlannerOutcome → Type 0
Outcome edges view required (planned p) = IsJoin edges view required p
Outcome edges view required _ = Unit

-- The edges that pass the authorization checks.
check_relationships_lem :
    (view : AuthorizedView) (edges : List RelationshipEdge)
    → check_relationships view edges ≡ none
    → (e : RelationshipEdge) → Memᴰ e edges
    → contains e.relationship_id view.allowed_relationships ≡ true
unfolding check_relationships
check_relationships_lem view [] h e m = elim m [ ]
check_relationships_lem view (x ∷ edges) h e (Memᴰ.head q) = rw q (ground arith)
check_relationships_lem view (x ∷ edges) h e (Memᴰ.tail m) =
    check_relationships_lem view edges (ground arith) e m

relationship_of :
    (e : RelationshipEdge) (d : Direction) → (step_of e d).relationship_id ≡ e.relationship_id
relationship_of e forward = refl
relationship_of e reverse = refl

step-IsAllowed :
    (view : AuthorizedView) (edges : List RelationshipEdge)
    → check_relationships view edges ≡ none
    → (s : JoinStep) → IsStepOf edges s
    → IsAllowed view s
step-IsAllowed view edges h s st =
    rw (st.made, relationship_of st.edge st.direction)
      (check_relationships_lem view edges h st.edge st.of_graph)

remove_cases :
    (x y : String) (ys : List String)
    → contains x ys ≡ true
    → (x ≡ y) ⊎ (contains x (remove y ys) ≡ true)
unfolding remove
remove_cases x y [] h = cc
remove_cases x y (z ∷ ys) h = elim (Bool-cases (str_eq x y)) [
  | inl same ↦ inl ((str_eq_iff x y).0 same)
  | inr other ↦ inr (remove_other x y (z ∷ ys) other h)
]
  where
    remove_other :
        (a b : String) (zs : List String)
        → str_eq a b ≡ false
        → contains a zs ≡ true
        → contains a (remove b zs) ≡ true
    remove_other a b [] o m = m
    remove_other a b (c ∷ zs) o m =
        ground (arith, str_eq_iff a b, str_eq_iff a c, str_eq_iff b c, remove_other a b zs o)

All_contains :
    (P : String → Type 0) (x : String) (xs : List String) → All P xs → contains x xs ≡ true → P x
All_contains P x [] all h = cc
All_contains P x (y ∷ xs) all h = elim (Bool-cases (str_eq x y)) [
  | inl same ↦ subst P (sym ((str_eq_iff x y).0 same)) all.0
  | inr other ↦ All_contains P x xs all.1 (rw other at h)
]

make_plan-Outcome :
    (edges : List RelationshipEdge) (view : AuthorizedView) (required : List String)
    (intent : MultiEntityIntent) (root : String) (steps : List JoinStep)
    → ((id source : String)
        → IsJoin edges view required
            (record { plan_id = id; source_id = source; root_entity_id = root; steps = steps }))
    → Returns (Outcome edges view required) (make_plan intent root steps)
unfolding make_plan
make_plan-Outcome edges view required intent root steps h =
    elim (Bool-cases (plan_ids_ok intent root)) [
      | inl valid ↦ rw valid (h _ _)
      | inr invalid ↦ rw invalid tt
    ]

-- The loop starts with the root visited.
start-IsSound :
    (edges : List RelationshipEdge) (root : String)
    → IsSound edges root (record { steps = []; visited = root ∷ []; used = [] })
start-IsSound edges root = record {
  connected = tt;
  known = λ x h. h;
  used_visited = λ id h. cc;
  from_edges = tt;
}

module _ (edges : List RelationshipEdge) (view : AuthorizedView) (intent : MultiEntityIntent)
    (required : List String) (root : String) (unique : IsUnique edges)
    (permitted : check_relationships view edges ≡ none) where
  covers_required :
      (q : Progress)
      → Reached edges root
          (sorted (remove root required))
          (record { steps = []; visited = root ∷ []; used = [] })
          (through q)
      → (x : String) → contains x required ≡ true
      → contains x (introduced (root ∷ []) q.steps) ≡ true
  covers_required q (sound, keeps, all) x m = elim (remove_cases x root required m) [
    | inl same ↦ sound.known x (keeps x (ground (arith, str_eq_iff x root)))
    | inr other ↦ sound.known x (
        All_contains (λ t. contains t q.visited ≡ true) x (sorted (remove root required)) all
          (rw (contains-sorted x (remove root required)) other))
  ]

  finish-Outcome :
      (c : Connected)
      → Reached edges root
          (sorted (remove root required))
          (record { steps = []; visited = root ∷ []; used = [] })
          c
      → Returns (Outcome edges view required) (finish intent root c)
  unfolding finish
  finish-Outcome (stopped (planned made)) r = absurd r
  finish-Outcome (stopped (not_found x)) r = tt
  finish-Outcome (stopped (ambiguous_path x)) r = tt
  finish-Outcome (stopped (unauthorized x)) r = tt
  finish-Outcome (through q) r =
      make_plan-Outcome edges view required intent root q.steps (λ id source. record {
        connected = r.0.connected;
        covers = covers_required q r;
        from_edges = r.0.from_edges;
        allowed =
            All-map (IsStepOf edges) (IsAllowed view) q.steps (step-IsAllowed view edges permitted)
              r.0.from_edges;
      })

  connect_all-Outcome :
      Returns (Outcome edges view required) (connect_all edges intent required root)
  unfolding connect_all
  connect_all-Outcome =
      Returns-bind
        (Reached edges root (sorted (remove root required))
          (record { steps = []; visited = root ∷ []; used = [] }))
        (Outcome edges view required) _ (finish intent root)
        (connect-Reached edges root unique (build_adjacency edges) (sorted (remove root required))
          (record { steps = []; visited = root ∷ []; used = [] }) (build_adjacency-AllHops edges)
          (start-IsSound edges root))
        finish-Outcome

single-IsJoin :
    (edges : List RelationshipEdge) (view : AuthorizedView) (x id source : String)
    → IsJoin edges view
        (x ∷ [])
        (record { plan_id = id; source_id = source; root_entity_id = x; steps = [] })
single-IsJoin edges view x id source = record {
  connected = tt;
  covers = λ y h. h;
  from_edges = tt;
  allowed = tt;
}

permitted_of :
    (view : AuthorizedView) (required : List String) (edges : List RelationshipEdge)
    → check_authorized view required edges ≡ none
    → check_relationships view edges ≡ none
unfolding check_authorized
permitted_of view required edges h = ground arith

plan_required_refused :
    (graph : RelationshipGraph) (view : AuthorizedView) (intent : MultiEntityIntent) (x y : String)
    (others : List String) (reason : Reason)
    → check_authorized view (x ∷ y ∷ others) graph.edges ≡ some reason
    → plan_required graph view intent (x ∷ y ∷ others) ≡ ok (unauthorized reason)
unfolding plan_required
plan_required_refused graph view intent x y others reason h =
    ap
      (λ o. elim o [
        | some r ↦ ok (unauthorized r)
        | none ↦ connect_all graph.edges intent (x ∷ y ∷ others) (minimum x (y ∷ others))
      ])
      h

plan_required_permitted :
    (graph : RelationshipGraph) (view : AuthorizedView) (intent : MultiEntityIntent) (x y : String)
    (others : List String)
    → check_authorized view (x ∷ y ∷ others) graph.edges ≡ none
    → plan_required graph view intent (x ∷ y ∷ others)
      ≡ connect_all graph.edges intent (x ∷ y ∷ others) (minimum x (y ∷ others))
unfolding plan_required
plan_required_permitted graph view intent x y others h =
    ap
      (λ o. elim o [
        | some r ↦ ok (unauthorized r)
        | none ↦ connect_all graph.edges intent (x ∷ y ∷ others) (minimum x (y ∷ others))
      ])
      h

plan_required-Outcome :
    (graph : RelationshipGraph) (view : AuthorizedView) (intent : MultiEntityIntent)
    (required : List String)
    → IsUnique graph.edges
    → Returns (Outcome graph.edges view required) (plan_required graph view intent required)
unfolding plan_required
plan_required-Outcome graph view intent [] unique =
    make_plan-Outcome graph.edges view [] intent "" []
      (λ id source. record { connected = tt; covers = λ y h. cc; from_edges = tt; allowed = tt })
plan_required-Outcome graph view intent (x ∷ []) unique =
    make_plan-Outcome graph.edges view (x ∷ []) intent x [] (single-IsJoin graph.edges view x)
plan_required-Outcome graph view intent (x ∷ y ∷ others) unique =
    elim (Option-cases (check_authorized view (x ∷ y ∷ others) graph.edges)) [
      | inr (reason, refused) ↦
          subst (Returns (Outcome graph.edges view (x ∷ y ∷ others)))
            (sym (plan_required_refused graph view intent x y others reason refused)) tt
      | inl permitted ↦
          subst (Returns (Outcome graph.edges view (x ∷ y ∷ others)))
            (sym (plan_required_permitted graph view intent x y others permitted))
            (connect_all-Outcome graph.edges view intent (x ∷ y ∷ others) (minimum x (y ∷ others))
              unique (permitted_of view (x ∷ y ∷ others) graph.edges permitted))
    ]

Outcome-of_set :
    (edges : List RelationshipEdge) (view : AuthorizedView) (ids : List String)
    (o : JoinPlannerOutcome)
    → Outcome edges view (set_of ids []) o
    → Outcome edges view ids o
Outcome-of_set edges view ids (planned p) j = record {
  connected = j.connected;
  covers = λ x h. j.covers x (set_of-all ids [] x h);
  from_edges = j.from_edges;
  allowed = j.allowed;
}
Outcome-of_set edges view ids _ j = tt

-- On a graph that can be constructed, `plan` returns an outcome, or pydantic refuses an identifier of
-- a step or of the plan: it meets no missing key, and the rounds of its loops are enough. A plan that
-- it returns is connected: each step leaves an entity that the root or an earlier step introduced.
-- It introduces every entity of the intent, each of its steps traverses an edge of the graph, and
-- each of their relationships is allowed by the view.
pub plan-Outcome :
    (graph : RelationshipGraph) (view : AuthorizedView) (intent : MultiEntityIntent)
    → graph_ok graph ≡ true
    → Returns (Outcome graph.edges view intent.entity_ids) (plan graph view intent)
unfolding plan
plan-Outcome graph view intent h = elim (Bool-cases (str_eq intent.source_id view.source_id)) [
  | inr other ↦ rw other tt
  | inl same ↦ elim (Bool-cases (str_eq graph.source_id view.source_id)) [
    | inr other ↦ rw (same, other) tt
    | inl one ↦
        rw (same, one)
          (Returns-map (Outcome graph.edges view (set_of intent.entity_ids []))
            (Outcome graph.edges view intent.entity_ids)
            (plan_required graph view intent (set_of intent.entity_ids []))
            (Outcome-of_set graph.edges view intent.entity_ids)
            (plan_required-Outcome graph view intent (set_of intent.entity_ids [])
              (graph_ok-IsUnique graph h)))
  ]
]
