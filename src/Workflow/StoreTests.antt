-- ===== src/Workflow/StoreTests.antt =====
-- A store with one live and one finished workflow, and the theorems about stores at it.
use nl2data_core.Common.{ℕ, ◌≡◌, refl, ◌≢◌, inl, inr, none, some, [], ◌∷◌, ok, arith}
use nl2data_core.Common.Sort.{sorted}
use nl2data_core.Workflow.Models.{created, WorkflowState}
use nl2data_core.Workflow.Store.{Store, empty, create, update, cleanup, list_ids}
use nl2data_core.Workflow.Store.Valid.{IsValid}
use nl2data_core.Workflow.Store.Access.{update-succeeds, update_stale}
use nl2data_core.Workflow.Store.Cleanup.{Cleaned, cleanup-Cleaned}
use nl2data_core.Workflow.Store.Reach.{
  here, next, creating, updating, Evolves, Reach-IsValid, Step-Evolves,
}
use nl2data_core.Workflow.Tests.{new_state, queued_state, done_state}
use nl2data_core.Workflow.Contract.{update_entry, Implements}
use nl2data_core.Workflow.Store.Refinement.{error_class, entry, update-Implements_contract}

abbrev done_2 : WorkflowState
done_2 = record done_state { workflow_id = "wf-2" }

abbrev one : Store
one = record {
  states = ("wf-1", new_state) ∷ [];
  revisions = ("wf-1", 1) ∷ [];
  updated_at = ("wf-1", 5) ∷ [];
}

abbrev two : Store
two = record {
  states = ("wf-1", new_state) ∷ ("wf-2", done_2) ∷ [];
  revisions = ("wf-1", 1) ∷ ("wf-2", 1) ∷ [];
  updated_at = ("wf-1", 5) ∷ ("wf-2", 6) ∷ [];
}

abbrev moved : Store
moved = record {
  states = ("wf-1", queued_state) ∷ ("wf-2", done_2) ∷ [];
  revisions = ("wf-1", 2) ∷ ("wf-2", 1) ∷ [];
  updated_at = ("wf-1", 8) ∷ ("wf-2", 6) ∷ [];
}

one_by : create 5 new_state empty ≡ ok one
unfolding create
one_by = refl

two_by : create 6 done_2 one ≡ ok two
unfolding create
two_by = refl

moved_by : update 8 "wf-1" created queued_state (some 1) none two ≡ ok moved
moved_by =
    update-succeeds 8 "wf-1" created queued_state (some 1) none two {current = new_state}
      {revision = 1} refl refl refl refl refl (inl refl) (inr refl)

two-IsValid : IsValid two
two-IsValid =
    Reach-IsValid (next (next here (creating 5 new_state one_by)) (creating 6 done_2 two_by))

Reach-IsValid_example : IsValid one
Reach-IsValid_example = Reach-IsValid (next here (creating 5 new_state one_by))

Step-Evolves_example : Evolves (some new_state) (some queued_state)
Step-Evolves_example =
    Step-Evolves (updating 8 "wf-1" created queued_state (some 1) none moved_by) two-IsValid "wf-1"

update_stale_example : update 9 "wf-1" created queued_state (some 1) none moved ≢ ok moved
update_stale_example =
    update_stale 8 9 1 "wf-1" created created queued_state queued_state none none two moved_by

-- Only the finished workflow is removed.
cleaned : cleanup 7 0 10 two ≡ ok (1, one)
unfolding cleanup sorted
cleaned = refl

cleanup-Cleaned_example :
    (removed : ℕ) × (t : Store) × (cleanup 7 0 10 two ≡ ok (removed, t))
    × Cleaned 7 10 two t removed
cleanup-Cleaned_example = cleanup-Cleaned 7 0 10 two two-IsValid (omega arith)

listed : list_ids none moved ≡ "wf-1" ∷ "wf-2" ∷ []
unfolding list_ids sorted
listed = refl

update-Implements_contract_example :
    Implements entry error_class none "wf-1" two
      (update 8 "wf-1" created queued_state (some 1) none two)
      (update_entry 8 created queued_state (some 1) (entry none "wf-1" two))
update-Implements_contract_example =
    update-Implements_contract 8 "wf-1" created queued_state (some 1) none two two-IsValid
