-- ===== src/Workflow/Progress.antt =====
-- What the window's control of the workflow gives: no screen is a dead end.
use slavetat_ui.Base.{◌≡◌, arith, Bool, true, false, some, some_of_is_some, ℕ}
use slavetat_ui.Core.Models.{
  ApplyTattooSuccess, RemoveTattooSuccess, UpdateTattooAppearanceSuccess, Expected, ok, unexpected,
}
use slavetat_ui.Catalog.{NativeCatalogBrowserModel}
use slavetat_ui.Workflow.State.{
  NativeSlotWorkflowModel, SlotWorkflowScreen, current_slots, slot_actions, preview, applying,
  edit_appearance, saving_appearance, remove_confirmation, removing, new_workflow,
}
use slavetat_ui.Workflow.Actions.{replace_selected_slot, request_remove, confirm_remove}
use slavetat_ui.Workflow.Edits.{confirm_apply, can_save_appearance, confirm_appearance_update}
use slavetat_ui.Workflow.Completions.{complete_apply, complete_remove, complete_appearance_update}
use slavetat_ui.Workflow.Commands.{Command, step}
use slavetat_ui.Workflow.Window.{Offers, IsConsistent, step-IsConsistent}

-- The states that the window and the background can bring about.
pub data Drives (s : NativeSlotWorkflowModel) : NativeSlotWorkflowModel → Type 0 where
  here : Drives s s
  next :
      {t u : NativeSlotWorkflowModel}
      → Drives s t
      → (c : Command) → Offers c t.screen
      → u ≡ step c t
      → Drives s u

-- In every state that the window and the background bring about from the start, the screen has what
-- it shows, and waits for a call exactly if it is that call's screen.
pub Drives-IsConsistent :
    (catalog : NativeCatalogBrowserModel) {s : NativeSlotWorkflowModel}
    → Drives (new_workflow catalog) s
    → IsConsistent s
Drives-IsConsistent catalog here = ground arith
Drives-IsConsistent catalog (next {t} d c o e) =
    rw e (step-IsConsistent c t o (Drives-IsConsistent catalog d))

abbrev pub at_actions : SlotWorkflowScreen → Bool
at_actions slot_actions = true
at_actions screen = false

abbrev pub at_confirmation : SlotWorkflowScreen → Bool
at_confirmation remove_confirmation = true
at_confirmation screen = false

abbrev pub at_preview : SlotWorkflowScreen → Bool
at_preview preview = true
at_preview screen = false

-- In a state whose screen has what it shows, and waits for a call exactly if it is that call's
-- screen, the operations of the buttons succeed exactly on their own screens.
pub offered_succeeds :
    (s : NativeSlotWorkflowModel)
    → IsConsistent s
    → ((replace_selected_slot s).1 ≡ at_actions s.screen)
      × ((request_remove s).1 ≡ at_actions s.screen)
      × ((confirm_remove s).1 ≡ at_confirmation s.screen)
      × ((confirm_apply s).1 ≡ at_preview s.screen)
      × ((confirm_appearance_update s).1 ≡ can_save_appearance s)
unfolding replace_selected_slot request_remove confirm_remove confirm_apply can_save_appearance
    confirm_appearance_update
offered_succeeds s h = ground arith

abbrev pub after {ℓ} :
    {A : Type ℓ} → Expected A → SlotWorkflowScreen → SlotWorkflowScreen → SlotWorkflowScreen
after (ok a) success failure = success
after (unexpected e) success failure = failure

apply_answered :
    (g : ℕ) (r : Expected ApplyTattooSuccess) (s : NativeSlotWorkflowModel)
    → s.active_apply ≡ some g
    → (complete_apply g r s).screen ≡ after r current_slots preview
unfolding complete_apply
apply_answered g (ok a) s h = ground arith
apply_answered g (unexpected e) s h = ground arith

remove_answered :
    (g : ℕ) (r : Expected RemoveTattooSuccess) (s : NativeSlotWorkflowModel)
    → s.active_remove ≡ some g
    → (complete_remove g r s).screen ≡ after r current_slots remove_confirmation
unfolding complete_remove
remove_answered g (ok a) s h = ground arith
remove_answered g (unexpected e) s h = ground arith

update_answered :
    (g : ℕ) (r : Expected UpdateTattooAppearanceSuccess) (s : NativeSlotWorkflowModel)
    → s.active_appearance ≡ some g
    → (complete_appearance_update g r s).screen ≡ after r current_slots edit_appearance
unfolding complete_appearance_update
update_answered g (ok a) s h = ground arith
update_answered g (unexpected e) s h = ground arith

-- In a state whose screen has what it shows, and waits for a call exactly if it is that call's
-- screen: the screen that applies waits for an application, and any answer to it leaves the screen:
-- a success for the slots, an error for the preview.
applying_ends :
    (s : NativeSlotWorkflowModel) (r : Expected ApplyTattooSuccess)
    → IsConsistent s
    → s.screen ≡ applying
    → (g : ℕ) × (s.active_apply ≡ some g)
      × ((complete_apply g r s).screen ≡ after r current_slots preview)
applying_ends s r h at =
    let (g, e) = some_of_is_some s.active_apply (ground arith) in (g, e, apply_answered g r s e)

-- In a state whose screen has what it shows, and waits for a call exactly if it is that call's
-- screen: the screen that removes waits for a removal, and any answer to it leaves the screen: a
-- success for the slots, an error for the confirmation.
removing_ends :
    (s : NativeSlotWorkflowModel) (r : Expected RemoveTattooSuccess)
    → IsConsistent s
    → s.screen ≡ removing
    → (g : ℕ) × (s.active_remove ≡ some g)
      × ((complete_remove g r s).screen ≡ after r current_slots remove_confirmation)
removing_ends s r h at =
    let (g, e) = some_of_is_some s.active_remove (ground arith) in (g, e, remove_answered g r s e)

-- In a state whose screen has what it shows, and waits for a call exactly if it is that call's
-- screen: the screen that saves waits for an update, and any answer to it leaves the screen: a
-- success for the slots, an error for the editor.
saving_ends :
    (s : NativeSlotWorkflowModel) (r : Expected UpdateTattooAppearanceSuccess)
    → IsConsistent s
    → s.screen ≡ saving_appearance
    → (g : ℕ) × (s.active_appearance ≡ some g)
      × ((complete_appearance_update g r s).screen ≡ after r current_slots edit_appearance)
saving_ends s r h at =
    let (g, e) = some_of_is_some s.active_appearance (ground arith) in
    (g, e, update_answered g r s e)
