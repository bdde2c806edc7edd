-- ===== src/Workflow/Commands.antt =====
-- Everything that happens to the slot workflow, as commands: what the window calls, and what the
-- background task calls. `run` is one history of them.
use slavetat_ui.Base.{ℕ, ℤ, Float, List, [], ◌∷◌}
use slavetat_ui.Core.Models.{
  TattooArea, TattooSlots, ApplyTattooSuccess, RemoveTattooSuccess, UpdateTattooAppearanceSuccess,
  Expected,
}
use slavetat_ui.Repository.Models.{TattooDefinition}
use slavetat_ui.Catalog.{NativeCatalogBrowserModel}
use slavetat_ui.Workflow.State.{NativeSlotWorkflowModel}
use slavetat_ui.Workflow.Actions.{
  start, select_area, refresh_selected_area, previous_slot_page, next_slot_page,
  set_slot_page_number, select_slot, replace_selected_slot, request_remove, cancel_remove,
  confirm_remove, back_to_slots,
}
use slavetat_ui.Workflow.Edits.{
  select_tattoo, set_preview_appearance, cancel_preview, confirm_apply, begin_edit_appearance,
  set_edited_appearance, cancel_edit_appearance, confirm_appearance_update,
}
use slavetat_ui.Workflow.Completions.{
  take_slot_query, take_apply_request, take_remove_request, take_appearance_request,
  complete_slot_query, complete_apply, complete_remove, complete_appearance_update,
}

pub data Command : Type 0 where
  starts refreshes turns_back turns_forward replaces requests_remove : Command
  cancels_remove confirms_remove goes_back cancels_preview confirms_apply : Command
  begins_edit cancels_edit confirms_update : Command
  takes_query takes_apply takes_remove takes_appearance : Command
  selects_area : TattooArea → Command
  turns_to : ℕ → Command
  selects_slot : ℤ → Command
  selects_tattoo : TattooDefinition → Command
  sets_preview sets_edited : ℤ → Float → Command
  -- The window uses the catalog browser, which the workflow shares.
  browses : NativeCatalogBrowserModel → Command
  completes_query : ℕ → Expected TattooSlots → Command
  completes_apply : ℕ → Expected ApplyTattooSuccess → Command
  completes_remove : ℕ → Expected RemoveTattooSuccess → Command
  completes_update : ℕ → Expected UpdateTattooAppearanceSuccess → Command

unfoldable pub step : Command → NativeSlotWorkflowModel → NativeSlotWorkflowModel
unfolding start select_area refresh_selected_area previous_slot_page next_slot_page
    set_slot_page_number select_slot replace_selected_slot request_remove cancel_remove
    confirm_remove back_to_slots select_tattoo set_preview_appearance cancel_preview confirm_apply
    begin_edit_appearance set_edited_appearance cancel_edit_appearance confirm_appearance_update
    complete_slot_query complete_apply complete_remove complete_appearance_update
step starts s = start s
step refreshes s = refresh_selected_area s
step turns_back s = previous_slot_page s
step turns_forward s = next_slot_page s
step replaces s = (replace_selected_slot s).0
step requests_remove s = (request_remove s).0
step cancels_remove s = cancel_remove s
step confirms_remove s = (confirm_remove s).0
step goes_back s = back_to_slots s
step cancels_preview s = cancel_preview s
step confirms_apply s = (confirm_apply s).0
step begins_edit s = (begin_edit_appearance s).0
step cancels_edit s = cancel_edit_appearance s
step confirms_update s = (confirm_appearance_update s).0
step takes_query s = (take_slot_query s).1
step takes_apply s = (take_apply_request s).1
step takes_remove s = (take_remove_request s).1
step takes_appearance s = (take_appearance_request s).1
step (selects_area area) s = select_area area s
step (turns_to n) s = set_slot_page_number n s
step (selects_slot slot) s = (select_slot slot s).0
step (selects_tattoo tattoo) s = select_tattoo tattoo s
step (sets_preview color alpha) s = set_preview_appearance color alpha s
step (sets_edited color alpha) s = set_edited_appearance color alpha s
step (browses catalog) s = record s { catalog = catalog }
step (completes_query g result) s = complete_slot_query g result s
step (completes_apply g result) s = complete_apply g result s
step (completes_remove g result) s = complete_remove g result s
step (completes_update g result) s = complete_appearance_update g result s

unfoldable pub run : List Command → NativeSlotWorkflowModel → NativeSlotWorkflowModel
run [] s = s
run (c ∷ cs) s = run cs (step c s)
