-- ===== src/Workflow/Retry.antt =====
-- What a failure leaves to retry.
use slavetat_ui.Base.{◌≡◌, ◌≢◌, ◌⊎◌, ℕ, ℤ, arith, true, if◌then◌else◌, none, some}
use slavetat_ui.Core.Models.{RemoveTattooMode, UpdateTattooAppearanceMode, ServiceError, unexpected}
use slavetat_ui.Workflow.State.{
  NativeSlotWorkflowModel, AppearanceEditSession, edit_appearance, player_form_id, next_generation,
}
use slavetat_ui.Workflow.Actions.{confirm_remove}
use slavetat_ui.Workflow.Completions.{
  is_synchronize_failed, complete_remove, complete_appearance_update,
}
use slavetat_ui.Workflow.Commands.{Command, step, starts, begins_edit}

-- A failed removal is asked for again, for the same slot: only the synchronization if that is what
-- failed, and the whole removal otherwise.
remove_retry :
    (s : NativeSlotWorkflowModel) (g : ℕ) (slot : ℤ) (e : ServiceError)
    → s.active_remove ≡ some g
    → s.target_slot ≡ some slot
    → let again = confirm_remove (complete_remove g (unexpected e) s) in
      (again.1 ≡ true)
      × (again.0.pending_remove
          ≡ some (record {
            generation = next_generation s;
            request = record {
              actor_form_id = player_form_id;
              area = s.selected_area;
              slot = slot;
              mode =
                  if is_synchronize_failed e.code
                  then RemoveTattooMode.synchronize_only
                  else RemoveTattooMode.remove_and_synchronize;
            };
          }))
unfolding confirm_remove complete_remove
remove_retry s g slot e h k = ground arith

-- A failed update keeps the session open on the values that the user chose; it goes on to only
-- synchronize if that is what failed, or if it did so already.
update_retry :
    (s : NativeSlotWorkflowModel) (g : ℕ) (x : AppearanceEditSession) (e : ServiceError)
    → s.active_appearance ≡ some g
    → s.edit_session ≡ some x
    → let t = complete_appearance_update g (unexpected e) s in
      (t.screen ≡ edit_appearance)
      × (t.error ≡ some e)
      × (t.edit_session
          ≡ some (record x {
            mode = elim x.mode [
              | UpdateTattooAppearanceMode.synchronize_only ↦
                  UpdateTattooAppearanceMode.synchronize_only
              | UpdateTattooAppearanceMode.update_and_synchronize ↦
                  if is_synchronize_failed e.code
                  then UpdateTattooAppearanceMode.synchronize_only
                  else UpdateTattooAppearanceMode.update_and_synchronize
            ];
          }))
unfolding complete_appearance_update
update_retry s g x e h k = ground arith

-- Every command but one that begins a new session leaves a session that only synchronizes as it is,
-- or closes it.
pub synchronize_only_sticks :
    (c : Command) (s : NativeSlotWorkflowModel) (x : AppearanceEditSession)
    → c ≢ begins_edit
    → s.edit_session ≡ some x
    → x.mode ≡ UpdateTattooAppearanceMode.synchronize_only
    → ((step c s).edit_session ≡ none) ⊎ ((step c s).edit_session ≡ some x)
unfolding step
synchronize_only_sticks starts s x n h m = ground arith
synchronize_only_sticks c s x n h m = ground arith
