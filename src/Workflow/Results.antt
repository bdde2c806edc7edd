-- ===== src/Workflow/Results.antt =====
-- Which answers count: late ones, second ones and ones of another kind do not.
use slavetat_ui.Base.{ℕ, ◌+◌, ◌^◌, ◌≤◌, ◌<◌, ◌≡◌, arith, true, some, List, [], ◌∷◌, length}
use slavetat_ui.Core.Models.{
  TattooSlots, ApplyTattooSuccess, RemoveTattooSuccess, UpdateTattooAppearanceSuccess, Expected, ok,
  unexpected,
}
use slavetat_ui.Catalog.{NativeCatalogBrowserModel}
use slavetat_ui.Workflow.State.{NativeSlotWorkflowModel, new_workflow}
use slavetat_ui.Workflow.Actions.{refresh_selected_area}
use slavetat_ui.Workflow.Completions.{
  complete_slot_query, complete_apply, complete_remove, complete_appearance_update,
}
use slavetat_ui.Workflow.Commands.{Command, step, run, starts}
use slavetat_ui.Workflow.Tickets.{IsTracked, step-IsTracked}

-- A command gives out at most one generation.
generation-step :
    (c : Command) (s : NativeSlotWorkflowModel) → (step c s).generation ≤ s.generation + 1
unfolding step
generation-step starts s = ground arith
generation-step c s = ground arith

run-IsTracked :
    (cs : List Command) (s : NativeSlotWorkflowModel)
    → s.generation + length cs < 2 ^ 64
    → IsTracked s
    → IsTracked (run cs s)
unfolding run
run-IsTracked [] s b h = h
run-IsTracked (c ∷ cs) s b h =
    run-IsTracked cs (step c s) (omega (arith, generation-step c s))
      (step-IsTracked c s (omega arith) h)

-- Over every history of fewer than 2^64 commands the calls that the workflow waits for have
-- generations that it gave out, no two of them the same.
pub run-new-IsTracked :
    (catalog : NativeCatalogBrowserModel) (cs : List Command)
    → length cs < 2 ^ 64
    → IsTracked (run cs (new_workflow catalog))
run-new-IsTracked catalog cs b = run-IsTracked cs (new_workflow catalog) (omega arith) (omega arith)

-- After a refresh of a started workflow no answer to an earlier query counts, while generations are
-- below 2^64.
refresh_supersedes :
    (s : NativeSlotWorkflowModel) (g : ℕ) (r : Expected TattooSlots)
    → s.started ≡ true
    → s.generation + 1 < 2 ^ 64
    → g ≤ s.generation
    → complete_slot_query g r (refresh_selected_area s) ≡ refresh_selected_area s
unfolding complete_slot_query refresh_selected_area
refresh_supersedes s g r h b k = ground arith

complete_slot_query_twice :
    (s : NativeSlotWorkflowModel) (g : ℕ) (r r' : Expected TattooSlots)
    → complete_slot_query g r' (complete_slot_query g r s) ≡ complete_slot_query g r s
unfolding complete_slot_query
complete_slot_query_twice s g (ok t) r' = ground arith
complete_slot_query_twice s g (unexpected e) r' = ground arith

complete_apply_twice :
    (s : NativeSlotWorkflowModel) (g : ℕ) (r r' : Expected ApplyTattooSuccess)
    → complete_apply g r' (complete_apply g r s) ≡ complete_apply g r s
unfolding complete_apply
complete_apply_twice s g (ok t) r' = ground arith
complete_apply_twice s g (unexpected e) r' = ground arith

complete_remove_twice :
    (s : NativeSlotWorkflowModel) (g : ℕ) (r r' : Expected RemoveTattooSuccess)
    → complete_remove g r' (complete_remove g r s) ≡ complete_remove g r s
unfolding complete_remove
complete_remove_twice s g (ok t) r' = ground arith
complete_remove_twice s g (unexpected e) r' = ground arith

complete_update_twice :
    (s : NativeSlotWorkflowModel) (g : ℕ) (r r' : Expected UpdateTattooAppearanceSuccess)
    → complete_appearance_update g r' (complete_appearance_update g r s)
      ≡ complete_appearance_update g r s
unfolding complete_appearance_update
complete_update_twice s g (ok t) r' = ground arith
complete_update_twice s g (unexpected e) r' = ground arith

-- A second answer under a generation changes nothing, whatever the first and the second say, for
-- each of the four kinds of call.
answered_once :
    (s : NativeSlotWorkflowModel) (g : ℕ) (q q' : Expected TattooSlots)
    (a a' : Expected ApplyTattooSuccess) (r r' : Expected RemoveTattooSuccess)
    (u u' : Expected UpdateTattooAppearanceSuccess)
    → (complete_slot_query g q' (complete_slot_query g q s) ≡ complete_slot_query g q s)
      × (complete_apply g a' (complete_apply g a s) ≡ complete_apply g a s)
      × (complete_remove g r' (complete_remove g r s) ≡ complete_remove g r s)
      × (complete_appearance_update g u' (complete_appearance_update g u s)
          ≡ complete_appearance_update g u s)
answered_once s g q q' a a' r r' u u' = (
  complete_slot_query_twice s g q q',
  complete_apply_twice s g a a',
  complete_remove_twice s g r r',
  complete_update_twice s g u u',
)

-- In a state whose calls have generations that were given out, no two the same, the generation of
-- the application that the workflow waits for answers no query, no removal and no update.
pub answers_apart :
    (s : NativeSlotWorkflowModel) (g : ℕ) (q : Expected TattooSlots)
    (r : Expected RemoveTattooSuccess) (u : Expected UpdateTattooAppearanceSuccess)
    → IsTracked s
    → s.active_apply ≡ some g
    → (complete_slot_query g q s ≡ s)
      × (complete_remove g r s ≡ s)
      × (complete_appearance_update g u s ≡ s)
unfolding complete_slot_query complete_remove complete_appearance_update
answers_apart s g q r u h e = ground arith
