-- ===== src/Workflow/Completions.antt =====
-- How a background task takes a ticket from `NativeSlotWorkflowModel` and reports its result.
use slavetat_ui.Base.{
  ℕ, Bool, true, false, ◌==◌, ◌||◌, not, if◌then◌else◌, List, [], eq_text, ℤ, keep_if, map, Option,
  none, some,
}
use slavetat_ui.Core.Models.{
  SlotOccupancy, TattooSlot, TattooSlots, ApplyTattooSuccess, RemoveTattooSuccess,
  UpdateTattooAppearanceMode, UpdateTattooAppearanceSuccess, ServiceError, ServiceErrorCode,
  synchronize_failed, Expected, ok, unexpected,
}
use slavetat_ui.Core.Service.{is_update}
use slavetat_ui.Repository.Models.{TattooDefinition}
use slavetat_ui.Workflow.State.{
  current_slots, preview, edit_appearance, remove_confirmation, SlotQueryTicket, SlotApplyTicket,
  SlotRemoveTicket, SlotAppearanceTicket, AppearanceEditSession, NativeSlotWorkflowModel,
  area_index, get_area, set_area_state, slots, clamp_selected_page, schedule_slot_query,
}

abbrev pub take_slot_query :
    NativeSlotWorkflowModel → Option SlotQueryTicket × NativeSlotWorkflowModel
take_slot_query s = (s.pending_slot_query, record s { pending_slot_query = none })

abbrev pub take_apply_request :
    NativeSlotWorkflowModel → Option SlotApplyTicket × NativeSlotWorkflowModel
take_apply_request s = (s.pending_apply, record s { pending_apply = none })

abbrev pub take_remove_request :
    NativeSlotWorkflowModel → Option SlotRemoveTicket × NativeSlotWorkflowModel
take_remove_request s = (s.pending_remove, record s { pending_remove = none })

abbrev pub take_appearance_request :
    NativeSlotWorkflowModel → Option SlotAppearanceTicket × NativeSlotWorkflowModel
take_appearance_request s = (s.pending_appearance, record s { pending_appearance = none })

-- The guard of each completion: is this the call that the workflow waits for?
abbrev pub is_active : ℕ → Option ℕ → Bool
is_active generation none = false
is_active generation (some active) = generation == active

-- Stores a result in the state of the area that it is about.
abbrev pub store_slots : TattooSlots → NativeSlotWorkflowModel → NativeSlotWorkflowModel
store_slots completed s =
    let i = area_index completed.area in
    record s {
      area_states =
          set_area_state i (record (get_area i s.area_states) { slots = some completed })
            s.area_states;
    }

receive_slots : Expected TattooSlots → NativeSlotWorkflowModel → NativeSlotWorkflowModel
unfolding clamp_selected_page
receive_slots (unexpected e) s = record s { error = some e }
receive_slots (ok completed) s =
    clamp_selected_page (record (store_slots completed s) { error = none })

unfoldable pub complete_slot_query :
    ℕ → Expected TattooSlots → NativeSlotWorkflowModel → NativeSlotWorkflowModel
unfolding receive_slots
complete_slot_query generation result s =
    if is_active generation s.active_slot_query
    then receive_slots result (record s { active_slot_query = none })
    else s

receive_apply : Expected ApplyTattooSuccess → NativeSlotWorkflowModel → NativeSlotWorkflowModel
unfolding schedule_slot_query
receive_apply (unexpected e) s = record s { error = some e; screen = preview }
receive_apply (ok _) s = schedule_slot_query s.selected_area (record s {
  error = none;
  preview_tattoo = none;
  preview_appearance = none;
  target_slot = none;
  screen = current_slots;
})

unfoldable pub complete_apply :
    ℕ → Expected ApplyTattooSuccess → NativeSlotWorkflowModel → NativeSlotWorkflowModel
unfolding receive_apply
complete_apply generation result s =
    if is_active generation s.active_apply
    then receive_apply result (record s { active_apply = none })
    else s

receive_remove : Expected RemoveTattooSuccess → NativeSlotWorkflowModel → NativeSlotWorkflowModel
unfolding schedule_slot_query
receive_remove (unexpected e) s = record s { error = some e; screen = remove_confirmation }
receive_remove (ok _) s =
    schedule_slot_query s.selected_area
      (record s { error = none; target_slot = none; screen = current_slots })

unfoldable pub complete_remove :
    ℕ → Expected RemoveTattooSuccess → NativeSlotWorkflowModel → NativeSlotWorkflowModel
unfolding receive_remove
complete_remove generation result s =
    if is_active generation s.active_remove
    then receive_remove result (record s { active_remove = none })
    else s

abbrev pub is_synchronize_failed : ServiceErrorCode → Bool
is_synchronize_failed synchronize_failed = true
is_synchronize_failed code = false

-- Once the values are written, an open session only synchronizes.
abbrev pub mode_after : ServiceError → UpdateTattooAppearanceMode → UpdateTattooAppearanceMode
mode_after e mode =
    if not (is_update mode) || is_synchronize_failed e.code
    then UpdateTattooAppearanceMode.synchronize_only
    else UpdateTattooAppearanceMode.update_and_synchronize

abbrev pub session_after :
    ServiceError → Option AppearanceEditSession → Option AppearanceEditSession
session_after e none = none
session_after e (some session) = some (record session { mode = mode_after e session.mode })

receive_appearance :
    Expected UpdateTattooAppearanceSuccess → NativeSlotWorkflowModel → NativeSlotWorkflowModel
unfolding schedule_slot_query
receive_appearance (unexpected e) s = record s {
  error = some e;
  edit_session = session_after e s.edit_session;
  screen = edit_appearance;
}
receive_appearance (ok _) s =
    schedule_slot_query s.selected_area
      (record s { error = none; edit_session = none; target_slot = none; screen = current_slots })

unfoldable pub complete_appearance_update :
    ℕ → Expected UpdateTattooAppearanceSuccess → NativeSlotWorkflowModel → NativeSlotWorkflowModel
unfolding receive_appearance
complete_appearance_update generation result s =
    if is_active generation s.active_appearance
    then receive_appearance result (record s { active_appearance = none })
    else s

abbrev pub uses_tattoo : TattooDefinition → TattooSlot → Bool
uses_tattoo tattoo slot = elim slot.occupancy [
  | SlotOccupancy.slave_tats ↦ elim slot.tattoo [
    | none ↦ false
    | some t ↦ if eq_text t.section tattoo.section then eq_text t.name tattoo.name else false
  ]
  | _ ↦ false
]

unfoldable pub in_use_slots : TattooDefinition → NativeSlotWorkflowModel → List ℤ
in_use_slots tattoo s = elim (slots s) [
  | none ↦ []
  | some current ↦ map (λ c. c.index) (keep_if (uses_tattoo tattoo) current.slots)
]
