-- ===== src/Assembly/Approval.antt =====
-- What the operations on a draft did, where they returned.
use nl2data_core.Common.{
  bind_ok, ℕ, ◌≡◌, sym, ap, ◌∙◌, subst, ◌⊎◌, inl, inr, Bool-cases, true, false, not, ◌&&◌, some,
  String, Result, ok, ◌>>=◌, ◌>>◌, raise_if, arith, any,
}
use nl2data_core.Assembly.Assertions.{
  ReviewState, SemanticAssertion, Hashes, AssemblyError, invalid, stale_provenance, bad_decision,
  is_pending, bind_review, create,
}
use nl2data_core.Assembly.Draft.{
  AssemblyDraft, AssemblyState, review, approved, is_approved, Changes, change_assertions,
  changes_others, changes_plan_only, attempts_protected, plan_changed, payload, with_changes,
  draft_ok, validate_draft, in_state, mutate, needs_review, transition,
}
use nl2data_core.Assembly.Lifecycle.{
  LifecycleAuthorizationContext, LifecycleAuthorizer, author, reviewer, approver, review_assertion,
  edit_assertion_action, submit_for_review_action, is_stale, edited_provenance,
  approve_draft_action, require_lifecycle_authorization, target, replace_all, replace,
  decide_assertion, edit_assertion, submit_for_review, approve_draft,
}

-- A draft that its class accepts, with nothing to review where it is approved.
pub record IsSettled (h : Hashes) (d : AssemblyDraft) : Type 0 where
  pub constructed : draft_ok h d ≡ true
  pub reviewed : is_approved d.state ≡ true → any (needs_review h) d.assertions ≡ false

module _ (h : Hashes) where
  -- What an operation that returned did.
  -- A mutation that went through and was not without effect.
  pub record Mutated (n : ℕ) (c : Changes) (d q : AssemblyDraft) : Type 0 where
    pub made : q ≡ payload (plan_changed c d) c d
    pub valid : draft_ok h q ≡ true
    pub at_revision : n ≡ d.draft_revision
    pub unprotected : attempts_protected c ≡ false
    pub thawed : is_approved d.state ≡ true → changes_others c ≡ false

  pub mutate-Mutated :
      (n : ℕ) (c : Changes) (d q : AssemblyDraft)
      → mutate h n c d ≡ ok q
      → (q ≡ d) ⊎ Mutated n c d q
  unfolding mutate validate_draft changes_plan_only
  mutate-Mutated n c d q e = elim (Bool-cases (changes_plan_only c && not (plan_changed c d))) [
    | inl idle ↦ inl (ground (arith, idle))
    | inr acts ↦ inr (record {
      made = ground (arith, acts);
      valid = ground (arith, acts);
      at_revision = ground (arith, acts);
      unprotected = ground (arith, acts);
      thawed = λ k. ground (arith, acts, k);
    })
  ]

  pub transition_lem :
      (n : ℕ) (s : AssemblyState) (d q : AssemblyDraft)
      → transition h n s d ≡ ok q
      → (is_approved s ≡ true → any (needs_review h) d.assertions ≡ false)
        × (draft_ok h (in_state s d) ≡ true)
        × (q ≡ in_state s d)
        × (n ≡ d.draft_revision)
  unfolding transition validate_draft
  transition_lem n s d q e = ((λ k. ground (arith, k)), ground arith, ground arith, ground arith)

  pub assertions_kept :
      (c : Changes) (d : AssemblyDraft)
      → changes_others c ≡ false
      → (payload (plan_changed c d) c d).assertions ≡ d.assertions
  unfolding payload with_changes changes_others
  assertions_kept c d same = elim (Bool-cases (plan_changed c d)) [
    | inl p ↦ ground (arith, p, same)
    | inr p ↦ ground (arith, p, same)
  ]

  -- A mutation approves no draft.
  still_approved :
      (c : Changes) (d : AssemblyDraft)
      → attempts_protected c ≡ false
      → is_approved (payload (plan_changed c d) c d).state ≡ true
      → is_approved d.state ≡ true
  unfolding payload with_changes attempts_protected
  still_approved c d safe k = elim (Bool-cases (plan_changed c d)) [
    | inl p ↦ ground (arith, p, safe, k)
    | inr p ↦ ground (arith, p, safe, k)
  ]

  pub mutate-IsSettled :
      (n : ℕ) (c : Changes) (d q : AssemblyDraft)
      → IsSettled h d
      → mutate h n c d ≡ ok q
      → IsSettled h q
  mutate-IsSettled n c d q v e = elim (mutate-Mutated n c d q e) [
    | inl same ↦ subst (IsSettled h) (sym same) v
    | inr m ↦ record {
      constructed = m.valid;
      reviewed = λ k.
          let was =
            still_approved c d m.unprotected (sym (ap (λ x. is_approved x.state) m.made) ∙ k) in
          ap (λ x. any (needs_review h) x.assertions) m.made
          ∙ ap (any (needs_review h)) (assertions_kept c d (m.thawed was))
          ∙ v.reviewed was;
    }
  ]

  pub transition-IsSettled :
      (n : ℕ) (s : AssemblyState) (d q : AssemblyDraft) → transition h n s d ≡ ok q → IsSettled h q
  transition-IsSettled n s d q e =
      let (done, valid, made, _) = transition_lem n s d q e in
      subst (IsSettled h) (sym made) (record { constructed = valid; reviewed = done })

module _ (h : Hashes) (d : AssemblyDraft) (n : ℕ) (context : LifecycleAuthorizationContext)
    (authorizer : LifecycleAuthorizer) where
  -- The operations on assertions change the draft by `mutate` only.
  replace-mutate :
      (a b : SemanticAssertion) (reason : String) (q : AssemblyDraft)
      → replace h d n a b reason ≡ ok q
      → (c : Changes) × (mutate h n c d ≡ ok q)
  unfolding replace
  replace-mutate a b reason q e =
      let (u, m, made) =
        bind_ok (mutate h n (change_assertions (replace_all a b d.assertions)) d)
          (λ updated. raise_if (not (h.reason_ok reason)) invalid >> ok updated) q e in
      let same : (u ≡ q) = ground arith in
      (
        change_assertions (replace_all a b d.assertions),
        subst (λ x. mutate h n (change_assertions (replace_all a b d.assertions)) d ≡ ok x) same m,
      )

  pub decide_assertion-mutate :
      (id : String) (decision : ReviewState) (reason : String) (q : AssemblyDraft)
      → decide_assertion h d id decision n context authorizer reason ≡ ok q
      → (c : Changes) × (mutate h n c d ≡ ok q)
  unfolding decide_assertion
  decide_assertion-mutate id decision reason q e =
      let decide : (SemanticAssertion → Result AssemblyError AssemblyDraft) = λ original.
        raise_if (is_stale d original) stale_provenance
        >> (bind_review h decision context.operator_reference reason original >>= λ replacement.
            replace h d n original replacement reason) in
      let (_, granted, rest) =
        bind_ok
          (require_lifecycle_authorization context authorizer reviewer review_assertion d.draft_id)
          (λ _. raise_if (is_pending decision) bad_decision >> (target d id >>= decide)) q e in
      let (_, final, rest2) =
        bind_ok (raise_if (is_pending decision) bad_decision) (λ _. target d id >>= decide) q
          rest in
      let (a, found, rest3) = bind_ok (target d id) decide q rest2 in
      let (_, fresh, rest4) =
        bind_ok (raise_if (is_stale d a) stale_provenance)
          (λ _. bind_review h decision context.operator_reference reason a >>= λ replacement.
            replace h d n a replacement reason)
          q rest3 in
      let (b, bound, made) =
        bind_ok (bind_review h decision context.operator_reference reason a)
          (λ replacement. replace h d n a replacement reason) q rest4 in
      replace-mutate a b reason q made

  pub edit_assertion-mutate :
      (id payload reason : String) (q : AssemblyDraft)
      → edit_assertion h d id payload n context authorizer reason ≡ ok q
      → (c : Changes) × (mutate h n c d ≡ ok q)
  unfolding edit_assertion
  edit_assertion-mutate id payload reason q e =
      let edit : (SemanticAssertion → Result AssemblyError AssemblyDraft) = λ original.
        create h original.type payload (edited_provenance original) >>= λ replacement.
        replace h d n original replacement reason in
      let (_, granted, rest) =
        bind_ok
          (require_lifecycle_authorization context authorizer reviewer edit_assertion_action
            d.draft_id)
          (λ _. target d id >>= edit) q e in
      let (a, found, rest2) = bind_ok (target d id) edit q rest in
      let (b, created, made) =
        bind_ok (create h a.type payload (edited_provenance a))
          (λ replacement. replace h d n a replacement reason) q rest2 in
      replace-mutate a b reason q made

  -- Submission and approval are transitions, with the operator noted.
  pub submit_for_review_lem :
      (q : AssemblyDraft)
      → submit_for_review h d n context authorizer ≡ ok q
      → (u : AssemblyDraft) × (transition h n review d ≡ ok u)
        × (draft_ok h q ≡ true)
        × (q ≡ record u { review_submitted_by = some context.operator_reference })
  unfolding submit_for_review validate_draft
  submit_for_review_lem q e =
      let note : (AssemblyDraft → Result AssemblyError AssemblyDraft) = λ updated.
        validate_draft h
          (record updated { review_submitted_by = some context.operator_reference }) in
      let (_, granted, rest) =
        bind_ok
          (require_lifecycle_authorization context authorizer author submit_for_review_action
            d.draft_id)
          (λ _. transition h n review d >>= note) q e in
      let (u, moved, made) = bind_ok (transition h n review d) note q rest in
      (u, moved, ground (arith, made), ground (arith, made))

  pub approve_draft_lem :
      (q : AssemblyDraft)
      → approve_draft h d n context authorizer ≡ ok q
      → (u : AssemblyDraft) × (context.has_role approver ≡ true)
        × (authorizer (record {
          context = context;
          required_role = approver;
          action = approve_draft_action;
          resource_id = d.draft_id;
        })
            ≡ true)
        × (transition h n approved d ≡ ok u)
        × (draft_ok h q ≡ true)
        × (q ≡ record u { approved_by = some context.operator_reference })
  unfolding approve_draft validate_draft require_lifecycle_authorization
  approve_draft_lem q e =
      let (_, authorized, rest) =
        bind_ok
          (require_lifecycle_authorization context authorizer approver approve_draft_action
            d.draft_id)
          (λ _. transition h n approved d >>= λ updated.
            validate_draft h (record updated { approved_by = some context.operator_reference }))
          q e in
      let (u, moved, made) =
        bind_ok (transition h n approved d)
          (λ updated.
            validate_draft h (record updated { approved_by = some context.operator_reference }))
          q rest in
      (
        u,
        ground (arith, authorized),
        ground (arith, authorized),
        moved,
        ground (arith, made),
        ground (arith, made),
      )
