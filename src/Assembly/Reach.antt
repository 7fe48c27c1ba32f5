-- ===== src/Assembly/Reach.antt =====
-- An approved draft was reviewed in full, its assertions are frozen, and each change advances the
-- revision.
use nl2data_core.Common.{
  ℕ, ◌+◌, ◌≡◌, refl, sym, subst, ap, ◌∙◌, ◌⊎◌, inl, inr, Bool, true, false, some, String, ok, arith,
  any,
}
use nl2data_core.Assembly.Assertions.{ReviewState, Hashes}
use nl2data_core.Assembly.Draft.{
  AssemblyDraft, AssemblyState, review, approved, is_approved, Changes, payload, with_changes,
  plan_changed, draft_ok, mutate, needs_review, transition,
}
use nl2data_core.Assembly.Lifecycle.{
  LifecycleAuthorizationContext, LifecycleAuthorizer, approver, approve_draft_action,
  decide_assertion, edit_assertion, submit_for_review, approve_draft,
}
use nl2data_core.Assembly.Approval.{
  IsSettled, mutate-Mutated, assertions_kept, transition_lem, mutate-IsSettled,
  transition-IsSettled, decide_assertion-mutate, edit_assertion-mutate, submit_for_review_lem,
  approve_draft_lem,
}

-- One operation on a draft that returned.
pub data Step (h : Hashes) : AssemblyDraft → AssemblyDraft → Type 0 where
  by_mutate : (n : ℕ) (c : Changes) (d q : AssemblyDraft) → mutate h n c d ≡ ok q → Step h d q
  by_transition :
      (n : ℕ) (s : AssemblyState) (d q : AssemblyDraft) → transition h n s d ≡ ok q → Step h d q
  by_decide :
      (id : String) (decision : ReviewState) (n : ℕ) (context : LifecycleAuthorizationContext)
      (authorizer : LifecycleAuthorizer) (reason : String) (d q : AssemblyDraft)
      → decide_assertion h d id decision n context authorizer reason ≡ ok q
      → Step h d q
  by_edit :
      (id payload : String) (n : ℕ) (context : LifecycleAuthorizationContext)
      (authorizer : LifecycleAuthorizer) (reason : String) (d q : AssemblyDraft)
      → edit_assertion h d id payload n context authorizer reason ≡ ok q
      → Step h d q
  by_submit :
      (n : ℕ) (context : LifecycleAuthorizationContext) (authorizer : LifecycleAuthorizer)
      (d q : AssemblyDraft)
      → submit_for_review h d n context authorizer ≡ ok q
      → Step h d q
  by_approve :
      (n : ℕ) (context : LifecycleAuthorizationContext) (authorizer : LifecycleAuthorizer)
      (d q : AssemblyDraft)
      → approve_draft h d n context authorizer ≡ ok q
      → Step h d q

-- The drafts that operations make of one that was constructed and is not yet approved.
pub data Reach (h : Hashes) : AssemblyDraft → Type 0 where
  start : (d : AssemblyDraft) → draft_ok h d ≡ true → is_approved d.state ≡ false → Reach h d
  next : (d q : AssemblyDraft) → Reach h d → Step h d q → Reach h q

Step-IsSettled : (h : Hashes) (d q : AssemblyDraft) → IsSettled h d → Step h d q → IsSettled h q
Step-IsSettled h d q v (by_mutate n c _ _ e) = mutate-IsSettled h n c d q v e
Step-IsSettled h d q v (by_transition n s _ _ e) = transition-IsSettled h n s d q e
Step-IsSettled h d q v (by_decide id decision n x z reason _ _ e) =
    let (c, m) = decide_assertion-mutate h d n x z id decision reason q e in
    mutate-IsSettled h n c d q v m
Step-IsSettled h d q v (by_edit id payload n x z reason _ _ e) =
    let (c, m) = edit_assertion-mutate h d n x z id payload reason q e in
    mutate-IsSettled h n c d q v m
Step-IsSettled h d q v (by_submit n x z _ _ e) =
    let (u, moved, valid, made) = submit_for_review_lem h d n x z q e in
    let w = transition-IsSettled h n review d u moved in
    record {
      constructed = valid;
      reviewed =
          subst (λ t. is_approved t.state ≡ true → any (needs_review h) t.assertions ≡ false)
            (sym made) w.reviewed;
    }
Step-IsSettled h d q v (by_approve n x z _ _ e) =
    let (u, role, allows, moved, valid, made) = approve_draft_lem h d n x z q e in
    let w = transition-IsSettled h n approved d u moved in
    record {
      constructed = valid;
      reviewed =
          subst (λ t. is_approved t.state ≡ true → any (needs_review h) t.assertions ≡ false)
            (sym made) w.reviewed;
    }

-- Whatever operations are applied to a constructed draft that is not approved, each result is one
-- that its class accepts, and where it is approved, every assertion was decided and its review is
-- bound to the payload that it has.
pub Reach-Reviewed : (h : Hashes) (d : AssemblyDraft) → Reach h d → IsSettled h d
Reach-Reviewed h d (start _ valid editable) = record {
  constructed = valid;
  reviewed = λ k. ground (arith, k, editable);
}
Reach-Reviewed h _ (next d q r s) = Step-IsSettled h d q (Reach-Reviewed h d r) s

-- An approval that returns is by an operator with the approver's role, whom the host allows it. The
-- draft is then approved by this operator, and each of its assertions was decided and its review is
-- bound to the payload that it has.
pub approve_draft-Approved :
    (h : Hashes) (d : AssemblyDraft) (n : ℕ) (context : LifecycleAuthorizationContext)
    (authorizer : LifecycleAuthorizer) (q : AssemblyDraft)
    → approve_draft h d n context authorizer ≡ ok q
    → (context.has_role approver ≡ true)
      × (authorizer (record {
        context = context;
        required_role = approver;
        action = approve_draft_action;
        resource_id = d.draft_id;
      })
          ≡ true)
      × (q.state ≡ approved)
      × (q.approved_by ≡ some context.operator_reference)
      × (any (needs_review h) q.assertions ≡ false)
approve_draft-Approved h d n context authorizer q e =
    let (u, role, allows, moved, valid, made) = approve_draft_lem h d n context authorizer q e in
    let (done, _, u_made, _) = transition_lem h n approved d u moved in
    (
      role,
      allows,
      ap AssemblyDraft.state made ∙ ap AssemblyDraft.state u_made,
      ap AssemblyDraft.approved_by made,
      ap (λ t. any (needs_review h) t.assertions) made
          ∙ ap (λ t. any (needs_review h) t.assertions) u_made
          ∙ done refl,
    )

mutate-frozen :
    (h : Hashes) (n : ℕ) (c : Changes) (d q : AssemblyDraft)
    → is_approved d.state ≡ true
    → mutate h n c d ≡ ok q
    → q.assertions ≡ d.assertions
mutate-frozen h n c d q k e = elim (mutate-Mutated h n c d q e) [
  | inl same ↦ ap AssemblyDraft.assertions same
  | inr m ↦ ap AssemblyDraft.assertions m.made ∙ assertions_kept h c d (m.thawed k)
]

-- No operation that returns changes the assertions of an approved draft.
pub Step-frozen :
    (h : Hashes) (d q : AssemblyDraft)
    → is_approved d.state ≡ true
    → Step h d q
    → q.assertions ≡ d.assertions
Step-frozen h d q k (by_mutate n c _ _ e) = mutate-frozen h n c d q k e
Step-frozen h d q k (by_transition n s _ _ e) =
    let (_, _, made, _) = transition_lem h n s d q e in ap AssemblyDraft.assertions made
Step-frozen h d q k (by_decide id decision n x z reason _ _ e) =
    let (c, m) = decide_assertion-mutate h d n x z id decision reason q e in
    mutate-frozen h n c d q k m
Step-frozen h d q k (by_edit id payload n x z reason _ _ e) =
    let (c, m) = edit_assertion-mutate h d n x z id payload reason q e in
    mutate-frozen h n c d q k m
Step-frozen h d q k (by_submit n x z _ _ e) =
    let (u, moved, _, made) = submit_for_review_lem h d n x z q e in
    let (_, _, u_made, _) = transition_lem h n review d u moved in
    ap AssemblyDraft.assertions made ∙ ap AssemblyDraft.assertions u_made
Step-frozen h d q k (by_approve n x z _ _ e) =
    let (u, role, allows, moved, _, made) = approve_draft_lem h d n x z q e in
    let (_, _, u_made, _) = transition_lem h n approved d u moved in
    ap AssemblyDraft.assertions made ∙ ap AssemblyDraft.assertions u_made

mutate_advances :
    (h : Hashes) (n : ℕ) (c : Changes) (d q : AssemblyDraft)
    → mutate h n c d ≡ ok q
    → (q ≡ d) ⊎ (q.draft_revision ≡ d.draft_revision + 1)
unfolding payload with_changes
mutate_advances h n c d q e = elim (mutate-Mutated h n c d q e) [
  | inl same ↦ inl same
  | inr m ↦ inr (ap AssemblyDraft.draft_revision m.made ∙ next_revision (plan_changed c d))
]
  where
    next_revision : (b : Bool) → (payload b c d).draft_revision ≡ d.draft_revision + 1
    next_revision true = refl
    next_revision false = refl

-- Each operation that returns leaves the draft as it was or makes one of the next revision.
pub Step-advances :
    (h : Hashes) (d q : AssemblyDraft)
    → Step h d q
    → (q ≡ d) ⊎ (q.draft_revision ≡ d.draft_revision + 1)
Step-advances h d q (by_mutate n c _ _ e) = mutate_advances h n c d q e
Step-advances h d q (by_transition n s _ _ e) =
    let (_, _, made, _) = transition_lem h n s d q e in inr (ap AssemblyDraft.draft_revision made)
Step-advances h d q (by_decide id decision n x z reason _ _ e) =
    let (c, m) = decide_assertion-mutate h d n x z id decision reason q e in
    mutate_advances h n c d q m
Step-advances h d q (by_edit id payload n x z reason _ _ e) =
    let (c, m) = edit_assertion-mutate h d n x z id payload reason q e in
    mutate_advances h n c d q m
Step-advances h d q (by_submit n x z _ _ e) =
    let (u, moved, _, made) = submit_for_review_lem h d n x z q e in
    let (_, _, u_made, _) = transition_lem h n review d u moved in
    inr (ap AssemblyDraft.draft_revision made ∙ ap AssemblyDraft.draft_revision u_made)
Step-advances h d q (by_approve n x z _ _ e) =
    let (u, role, allows, moved, _, made) = approve_draft_lem h d n x z q e in
    let (_, _, u_made, _) = transition_lem h n approved d u moved in
    inr (ap AssemblyDraft.draft_revision made ∙ ap AssemblyDraft.draft_revision u_made)
