-- ===== src/Planning/Join/Plan.antt =====
-- The loop over the targets: where it ends, every target is reached over connected steps.
use mathlib.Core.List.{Memᴰ}
use nl2data_core.Common.{
  ◌+◌, ◌≡◌, inl, inr, Bool-cases, true, List, [], ◌∷◌, String, Result, ok, All, contains, length,
}
use nl2data_core.Planning.Join.Graph.{RelationshipEdge, PlannerError, Adjacency}
use nl2data_core.Planning.Join.Search.{PathResult, unreachable, ambiguous, found}
use nl2data_core.Planning.Join.Planner.{
  planned, not_found, ambiguous_path, unauthorized, Progress, take_hops, Connected, through,
  stopped, follow, resume, connect,
}
use nl2data_core.Planning.Join.Hops.{AllHops}
use nl2data_core.Planning.Join.Path.{Answers, shortest_path-Answers}
use nl2data_core.Planning.Join.Progress.{
  Returns, Returns-bind, Returns-map, IsSound, Onward, take_hops-Onward,
}

abbrev pub IsUnique : List RelationshipEdge → Type 0
IsUnique edges =
    (e f : RelationshipEdge) → Memᴰ e edges → Memᴰ f edges → e.edge_id ≡ f.edge_id → e ≡ f

-- Where the loop over the targets may end.
abbrev pub Reached : List RelationshipEdge → String → List String → Progress → Connected → Type 0
Reached edges root targets p (stopped (planned made)) = ⊥
Reached edges root targets p (stopped _) = Unit
Reached edges root targets p (through q) =
    IsSound edges root q
    × ((x : String) → contains x p.visited ≡ true → contains x q.visited ≡ true)
    × All (λ t. contains t q.visited ≡ true) targets

module _ (edges : List RelationshipEdge) (root : String) (unique : IsUnique edges) where
  follow-Reached :
      (target : String) (p : Progress) (r : PathResult)
      → IsSound edges root p
      → Answers edges p.visited target r
      → Returns (Reached edges root (target ∷ []) p) (follow target p r)
  unfolding follow
  follow-Reached target p unreachable v a = tt
  follow-Reached target p ambiguous v a = tt
  follow-Reached target p (found path) v a =
      Returns-bind (Onward edges root p target) (Reached edges root (target ∷ []) p)
        (take_hops path p) (λ q. ok (through q))
        (take_hops-Onward edges root unique path p a.start target v a.chain a.starts_there)
        (λ q o. (o.sound, o.keeps, (o.arrived, tt)))

  Reached-cons :
      (target : String) (targets : List String) (p q : Progress) (c : Connected)
      → ((x : String) → contains x p.visited ≡ true → contains x q.visited ≡ true)
      → contains target q.visited ≡ true
      → Reached edges root targets q c
      → Reached edges root (target ∷ targets) p c
  Reached-cons target targets p q (stopped (planned made)) keeps here r = r
  Reached-cons target targets p q (stopped (not_found x)) keeps here r = tt
  Reached-cons target targets p q (stopped (ambiguous_path x)) keeps here r = tt
  Reached-cons target targets p q (stopped (unauthorized x)) keeps here r = tt
  Reached-cons target targets p q (through s) keeps here (sound, on, all) =
      (sound, λ x k. on x (keeps x k), (on target here, all))

  resume-Reached :
      (target : String) (targets : List String) (p : Progress)
      (next : Progress → Result PlannerError Connected) (c : Connected)
      → ((q : Progress) → IsSound edges root q → Returns (Reached edges root targets q) (next q))
      → Reached edges root (target ∷ []) p c
      → Returns (Reached edges root (target ∷ targets) p) (resume next c)
  resume-Reached target targets p next (stopped (planned made)) k r = r
  resume-Reached target targets p next (stopped (not_found x)) k r = tt
  resume-Reached target targets p next (stopped (ambiguous_path x)) k r = tt
  resume-Reached target targets p next (stopped (unauthorized x)) k r = tt
  resume-Reached target targets p next (through q) k (sound, keeps, (here, _)) =
      Returns-map (Reached edges root targets q) (Reached edges root (target ∷ targets) p) (next q)
        (λ c r. Reached-cons target targets p q c keeps here r) (k q sound)

  pub connect-Reached :
      (adjacency : Adjacency) (targets : List String) (p : Progress)
      → AllHops edges adjacency
      → IsSound edges root p
      → Returns
          (Reached edges root targets p)
          (connect (length edges + length edges) adjacency targets p)
  unfolding connect
  connect-Reached adjacency [] p hops v = (v, λ x k. k, tt)
  connect-Reached adjacency (target ∷ targets) p hops v =
      elim (Bool-cases (contains target p.visited)) [
        | inl already ↦ rw already (
            Returns-map (Reached edges root targets p) (Reached edges root (target ∷ targets) p)
              (connect (length edges + length edges) adjacency targets p)
              (λ c r. Reached-cons target targets p p c (λ x k. k) already r)
              (connect-Reached adjacency targets p hops v))
        | inr absent ↦
            let (r, answered, answers) =
              shortest_path-Answers edges p.visited adjacency target hops in
            rw (absent, answered)
              (Returns-bind (Reached edges root (target ∷ []) p)
                (Reached edges root (target ∷ targets) p) (follow target p r)
                (resume (connect (length edges + length edges) adjacency targets))
                (follow-Reached target p r v answers)
                (λ c reached.
                  resume-Reached target targets p
                    (connect (length edges + length edges) adjacency targets) c
                    (λ q sound. connect-Reached adjacency targets q hops sound) reached))
      ]
