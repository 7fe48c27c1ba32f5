-- ===== src/Planning/Join/Progress.antt =====
-- The steps that the planner collects are connected: each one leaves an entity that the root or an
-- earlier step has introduced.
use mathlib.Core.List.{Memᴰ}
use nl2data_core.Common.{
  add_to_set_self, add_to_set_keeps, add_to_set_cases, add_to_set, ◌≡◌, refl, sym, subst, ◌⊎◌, inl,
  inr, Bool-cases, true, false, List, [], ◌∷◌, ◌++◌, String, Result, ok, ◌>>=◌, err, arith, All,
  All-append, contains, str_eq_iff,
}
use nl2data_core.Planning.Join.Graph.{
  RelationshipEdge, JoinStep, Direction, forward, reverse, PlannerError, invalid_step, invalid_plan,
  key_error, no_fuel, step_of, make_step, Hop,
}
use nl2data_core.Planning.Join.Planner.{Progress, take_hop, take_hops}
use nl2data_core.Planning.Join.Hops.{source_of, target_of, IsHop}
use nl2data_core.Planning.Join.Path.{Chain}

-- The entities known after some steps, from those known before.
abbrev pub introduced : List String → List JoinStep → List String
introduced known [] = known
introduced known (s ∷ steps) = introduced (s.right_entity_id ∷ known) steps

-- Each step leaves a known entity, and makes the one that it enters known.
abbrev pub IsConnected : List String → List JoinStep → Type 0
IsConnected known [] = Unit
IsConnected known (s ∷ steps) =
    (contains s.left_entity_id known ≡ true) × IsConnected (s.right_entity_id ∷ known) steps

-- A call of the planner returns a value with the property, or an identifier is refused by pydantic;
-- it meets no missing key and does not run out of rounds.
abbrev pub Returns : {A : Type 0} → (A → Type 0) → Result PlannerError A → Type 0
Returns P (ok a) = P a
Returns P (err invalid_step) = Unit
Returns P (err invalid_plan) = Unit
Returns P (err key_error) = ⊥
Returns P (err no_fuel) = ⊥

pub Returns-bind :
    {A B : Type 0} (P : A → Type 0) (Q : B → Type 0) (m : Result PlannerError A)
    (f : A → Result PlannerError B)
    → Returns P m
    → ((a : A) → P a → Returns Q (f a))
    → Returns Q (m >>= f)
Returns-bind P Q (ok a) f h k = k a h
Returns-bind P Q (err invalid_step) f h k = tt
Returns-bind P Q (err invalid_plan) f h k = tt
Returns-bind P Q (err key_error) f h k = absurd h
Returns-bind P Q (err no_fuel) f h k = absurd h

pub Returns-map :
    {A : Type 0} (P Q : A → Type 0) (m : Result PlannerError A)
    → ((a : A) → P a → Q a)
    → Returns P m
    → Returns Q m
Returns-map P Q (ok a) k h = k a h
Returns-map P Q (err invalid_step) k h = tt
Returns-map P Q (err invalid_plan) k h = tt
Returns-map P Q (err key_error) k h = h
Returns-map P Q (err no_fuel) k h = h

make_step_cases :
    (e : RelationshipEdge) (d : Direction)
    → (make_step e d ≡ ok (step_of e d)) ⊎ (make_step e d ≡ err invalid_step)
unfolding make_step
make_step_cases e d = ground arith

introduced-append :
    (known : List String) (steps : List JoinStep) (s : JoinStep)
    → introduced known (steps ++ s ∷ []) ≡ s.right_entity_id ∷ introduced known steps
introduced-append known [] s = refl
introduced-append known (x ∷ steps) s = introduced-append (x.right_entity_id ∷ known) steps s

IsConnected-append :
    (known : List String) (steps : List JoinStep) (s : JoinStep)
    → IsConnected known steps
    → contains s.left_entity_id (introduced known steps) ≡ true
    → IsConnected known (steps ++ s ∷ [])
IsConnected-append known [] s c h = (h, tt)
IsConnected-append known (x ∷ steps) s c h =
    (c.0, IsConnected-append (x.right_entity_id ∷ known) steps s c.1 h)

step_of_ends :
    (e : RelationshipEdge) (d : Direction)
    → ((step_of e d).left_entity_id ≡ source_of e d)
      × ((step_of e d).right_entity_id ≡ target_of e d)
step_of_ends e forward = (refl, refl)
step_of_ends e reverse = (refl, refl)

-- Where both ends of an edge are, the source and the target of its traversal are.
ends_cases :
    (P : String → Type 0) (e : RelationshipEdge) (d : Direction)
    → P (source_of e d)
    → P (target_of e d)
    → P e.left_entity_id × P e.right_entity_id
ends_cases P e forward s t = (s, t)
ends_cases P e reverse s t = (t, s)

target_visited :
    (P : String → Type 0) (e : RelationshipEdge) (d : Direction)
    → P e.left_entity_id
    → P e.right_entity_id
    → P (target_of e d)
target_visited P e forward l r = r
target_visited P e reverse l r = l

-- A step is made from an edge of the graph.
pub record IsStepOf (edges : List RelationshipEdge) (s : JoinStep) : Type 0 where
  pub edge : RelationshipEdge
  pub direction : Direction
  pub of_graph : Memᴰ edge edges
  pub made : s ≡ step_of edge direction

module _ (edges : List RelationshipEdge) (root : String) where
  pub record IsUsed (p : Progress) (id : String) : Type 0 where
    pub edge : RelationshipEdge
    pub of_graph : Memᴰ edge edges
    pub named : edge.edge_id ≡ id
    pub left_visited : contains edge.left_entity_id p.visited ≡ true
    pub right_visited : contains edge.right_entity_id p.visited ≡ true

  pub record IsSound (p : Progress) : Type 0 where
    pub connected : IsConnected (root ∷ []) p.steps
    pub known :
        (x : String)
        → contains x p.visited ≡ true
        → contains x (introduced (root ∷ []) p.steps) ≡ true
    pub used_visited : (id : String) → contains id p.used ≡ true → IsUsed p id
    pub from_edges : All (IsStepOf edges) p.steps

  abbrev Keeps : Progress → Progress → Type 0
  Keeps p q = (x : String) → contains x p.visited ≡ true → contains x q.visited ≡ true

  -- The progress with one more step.
  abbrev step_on : Hop → Progress → Progress
  step_on hop p = record {
    steps = p.steps ++ step_of hop.edge hop.direction ∷ [];
    visited = add_to_set hop.edge.right_entity_id (add_to_set hop.edge.left_entity_id p.visited);
    used = add_to_set hop.edge.edge_id p.used;
  }

  step_on-Keeps : (hop : Hop) (p : Progress) → Keeps p (step_on hop p)
  step_on-Keeps hop p x h =
      add_to_set_keeps x hop.edge.right_entity_id _
        (add_to_set_keeps x hop.edge.left_entity_id p.visited h)

  step_on-ends :
      (hop : Hop) (p : Progress)
      → (contains hop.edge.left_entity_id (step_on hop p).visited ≡ true)
        × (contains hop.edge.right_entity_id (step_on hop p).visited ≡ true)
  step_on-ends hop p = (
    add_to_set_keeps hop.edge.left_entity_id hop.edge.right_entity_id _
        (add_to_set_self hop.edge.left_entity_id p.visited),
    add_to_set_self hop.edge.right_entity_id _,
  )

  step_on-known :
      (hop : Hop) (p : Progress) (from : String)
      → IsSound p
      → IsHop edges from hop
      → contains from p.visited ≡ true
      → (x : String) → contains x (step_on hop p).visited ≡ true
      → contains x (introduced (root ∷ []) (step_on hop p).steps) ≡ true
  step_on-known hop p from v h here x c =
      rw (introduced-append (root ∷ []) p.steps (step_of hop.edge hop.direction))
        (elim (add_to_set_cases x hop.edge.right_entity_id _ c) [
          | inl e ↦ subst IsKnown (sym e) ends.1
          | inr c' ↦ elim (add_to_set_cases x hop.edge.left_entity_id p.visited c') [
            | inl e ↦ subst IsKnown (sym e) ends.0
            | inr old ↦ keep x (v.known x old)
          ]
        ])
    where
      IsKnown : String → Type 0
      IsKnown y =
          contains y
            ((step_of hop.edge hop.direction).right_entity_id ∷ introduced (root ∷ []) p.steps)
          ≡ true

      keep : (y : String) → contains y (introduced (root ∷ []) p.steps) ≡ true → IsKnown y
      keep y k = ground arith

      entered : IsKnown (target_of hop.edge hop.direction)
      entered = ground (
        arith,
        (step_of_ends hop.edge hop.direction).1,
        str_eq_iff (target_of hop.edge hop.direction)
            (step_of hop.edge hop.direction).right_entity_id,
      )

      ends : IsKnown hop.edge.left_entity_id × IsKnown hop.edge.right_entity_id
      ends =
          ends_cases IsKnown hop.edge hop.direction
            (keep _ (
              subst (λ y. contains y (introduced (root ∷ []) p.steps) ≡ true) (sym h.leaves)
                (v.known from here)))
            entered

  IsUsed-step_on :
      (hop : Hop) (p : Progress) {id : String} → IsUsed p id → IsUsed (step_on hop p) id
  IsUsed-step_on hop p u = record {
    edge = u.edge;
    of_graph = u.of_graph;
    named = u.named;
    left_visited = step_on-Keeps hop p u.edge.left_entity_id u.left_visited;
    right_visited = step_on-Keeps hop p u.edge.right_entity_id u.right_visited;
  }

  step_on-IsSound :
      (hop : Hop) (p : Progress) (from : String)
      → IsSound p
      → IsHop edges from hop
      → contains from p.visited ≡ true
      → IsSound (step_on hop p)
  step_on-IsSound hop p from v h here = record {
    connected =
        IsConnected-append (root ∷ []) p.steps (step_of hop.edge hop.direction) v.connected
          (rw ((step_of_ends hop.edge hop.direction).0, h.leaves) (v.known from here));
    known = step_on-known hop p from v h here;
    used_visited = λ id used. elim (add_to_set_cases id hop.edge.edge_id p.used used) [
      | inr old ↦ IsUsed-step_on hop p (v.used_visited id old)
      | inl e ↦ record {
        edge = hop.edge;
        of_graph = h.of_graph;
        named = sym e;
        left_visited = (step_on-ends hop p).0;
        right_visited = (step_on-ends hop p).1;
      }
    ];
    from_edges =
        All-append (IsStepOf edges) p.steps (step_of hop.edge hop.direction ∷ []) v.from_edges (
          record { edge = hop.edge; direction = hop.direction; of_graph = h.of_graph; made = refl },
          tt,
        );
  }

  take_hop_made :
      (hop : Hop) (p : Progress)
      → contains hop.edge.edge_id p.used ≡ false
      → make_step hop.edge hop.direction ≡ ok (step_of hop.edge hop.direction)
      → take_hop hop p ≡ ok (step_on hop p)
  unfolding take_hop
  take_hop_made hop p new made = ground (arith, new, made)

  -- Where the loop over a path has come after `p`.
  pub record Onward (p : Progress) (to : String) (q : Progress) : Type 0 where
    pub sound : IsSound q
    pub keeps : Keeps p q
    pub arrived : contains to q.visited ≡ true

  module _
      (unique : (e f : RelationshipEdge)
        → Memᴰ e edges
        → Memᴰ f edges
        → e.edge_id ≡ f.edge_id
        → e ≡ f) where
    -- An edge that is used already has both its ends visited.
    visited_before :
        (hop : Hop) (p : Progress) (from : String)
        → IsSound p
        → IsHop edges from hop
        → contains hop.edge.edge_id p.used ≡ true
        → Onward p hop.entity p
    visited_before hop p from v h again =
        let u = v.used_visited hop.edge.edge_id again in
        let same = unique u.edge hop.edge u.of_graph h.of_graph u.named in
        record {
          sound = v;
          keeps = λ x k. k;
          arrived = rw (← h.enters) (
              target_visited (λ y. contains y p.visited ≡ true) hop.edge hop.direction
                (subst (λ e. contains e.left_entity_id p.visited ≡ true) same u.left_visited)
                (subst (λ e. contains e.right_entity_id p.visited ≡ true) same u.right_visited));
        }

    take_hop-Onward :
        (hop : Hop) (p : Progress) (from : String)
        → IsSound p
        → IsHop edges from hop
        → contains from p.visited ≡ true
        → Returns (Onward p hop.entity) (take_hop hop p)
    unfolding take_hop
    take_hop-Onward hop p from v h here = elim (Bool-cases (contains hop.edge.edge_id p.used)) [
      | inl again ↦ rw (again, take_hop) (visited_before hop p from v h again)
      | inr new ↦ elim (make_step_cases hop.edge hop.direction) [
        | inr refused ↦ rw (new, refused) tt
        | inl made ↦
            subst (Returns (Onward p hop.entity)) (sym (take_hop_made hop p new made)) (record {
              sound = step_on-IsSound hop p from v h here;
              keeps = step_on-Keeps hop p;
              arrived = rw (← h.enters) (
                  target_visited (λ y. contains y (step_on hop p).visited ≡ true) hop.edge
                    hop.direction (step_on-ends hop p).0 (step_on-ends hop p).1);
            })
      ]
    ]

    pub take_hops-Onward :
        (hops : List Hop) (p : Progress) (from to : String)
        → IsSound p
        → Chain edges from hops to
        → contains from p.visited ≡ true
        → Returns (Onward p to) (take_hops hops p)
    unfolding take_hops
    take_hops-Onward [] p from to v c here = record {
      sound = v;
      keeps = λ x h. h;
      arrived = rw (← c) here;
    }
    take_hops-Onward (hop ∷ hops) p from to v c here =
        Returns-bind (Onward p hop.entity) (Onward p to) (take_hop hop p) (take_hops hops)
          (take_hop-Onward hop p from v c.0 here)
          (λ q o.
            Returns-map (Onward q to) (Onward p to) (take_hops hops q)
              (λ r n. record {
                sound = n.sound;
                keeps = λ x k. n.keeps x (o.keeps x k);
                arrived = n.arrived;
              })
              (take_hops-Onward hops q hop.entity to o.sound c.1 o.arrived))
