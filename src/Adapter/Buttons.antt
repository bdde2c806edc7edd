-- ===== src/Adapter/Buttons.antt =====
-- The buttons that the window enables are those that do something.
use slavetat_ui.Base.{◌≡◌, arith, is_some}
use slavetat_ui.Workflow.State.{NativeSlotWorkflowModel}
use slavetat_ui.Workflow.Actions.{confirm_remove}
use slavetat_ui.Workflow.Edits.{confirm_apply, can_save_appearance, confirm_appearance_update}
use slavetat_ui.Workflow.Window.{IsConsistent}
use slavetat_ui.Adapter.{
  is_preview_apply_enabled, is_appearance_save_enabled, is_remove_confirmation_enabled,
}

-- In a state whose screen has what it shows, and waits for a call exactly if it is that call's
-- screen, the window enables the buttons that apply, remove and save exactly when their operations
-- succeed.
pub enabled_succeeds :
    (s : NativeSlotWorkflowModel)
    → IsConsistent s
    → ((confirm_apply s).1
        ≡ is_preview_apply_enabled s.screen (is_some s.target_slot) (is_some s.preview_tattoo))
      × ((confirm_remove s).1 ≡ is_remove_confirmation_enabled s.screen (is_some s.target_slot))
      × ((confirm_appearance_update s).1 ≡ is_appearance_save_enabled s.screen s.edit_session)
unfolding confirm_apply confirm_remove can_save_appearance confirm_appearance_update
    is_preview_apply_enabled is_appearance_save_enabled is_remove_confirmation_enabled
enabled_succeeds s h = ground arith
