-- ===== src/Workflow/Actions.antt =====
-- What the user does to the workflow: the operations of `NativeSlotWorkflowModel` that the window
-- calls. One that returns `bool` gives the new state and the result.
use slavetat_ui.Base.{
  ℕ, ◌+◌, ◌-◌, min, Bool, true, false, not, ◌&&◌, ltb, ◌==◌, if◌then◌else◌, u64, ℤ, pos, ◌==ℤ◌,
  clamp_ℤ, zero_f, one_f, clamp_f, find_if, is_some, Option, none, some,
}
use slavetat_ui.Core.Models.{
  TattooEntry, TattooArea, eq_area, SlotOccupancy, TattooSlot, TattooSlots, RemoveTattooMode,
  ServiceError, synchronize_failed,
}
use slavetat_ui.Workflow.State.{
  current_slots, slot_actions, remove_confirmation, removing, PreviewTattooAppearance,
  default_appearance, NativeSlotWorkflowModel, player_form_id, slots, slot_page_index,
  slot_page_count, set_page_index, clamp_selected_page, next_generation, schedule_slot_query,
  open_picker,
}

unfoldable pub start : NativeSlotWorkflowModel → NativeSlotWorkflowModel
unfolding schedule_slot_query
start s = if s.started then s else schedule_slot_query s.selected_area (record s { started = true })

unfoldable pub select_area : TattooArea → NativeSlotWorkflowModel → NativeSlotWorkflowModel
unfolding schedule_slot_query clamp_selected_page
select_area area s =
    if eq_area area s.selected_area
    then s
    else if s.started && not (is_some (slots shown))
    then schedule_slot_query area shown
    else shown
  where
    shown : NativeSlotWorkflowModel
    shown = clamp_selected_page (record s {
      selected_area = area;
      screen = current_slots;
      target_slot = none;
      preview_tattoo = none;
      preview_appearance = none;
      pending_appearance = none;
      active_appearance = none;
      edit_session = none;
      error = none;
    })

unfoldable pub refresh_selected_area : NativeSlotWorkflowModel → NativeSlotWorkflowModel
unfolding schedule_slot_query
refresh_selected_area s = if s.started then schedule_slot_query s.selected_area s else s

unfoldable pub previous_slot_page : NativeSlotWorkflowModel → NativeSlotWorkflowModel
unfolding set_page_index
previous_slot_page s =
    if ltb 0 (slot_page_index s) then set_page_index (slot_page_index s - 1) s else s

unfoldable pub next_slot_page : NativeSlotWorkflowModel → NativeSlotWorkflowModel
unfolding set_page_index slot_page_count
next_slot_page s =
    let count = slot_page_count s in
    if ltb 0 count && ltb (u64 (slot_page_index s + 1)) count
    then set_page_index (u64 (slot_page_index s + 1)) s
    else s

unfoldable pub set_slot_page_number : ℕ → NativeSlotWorkflowModel → NativeSlotWorkflowModel
unfolding set_page_index slot_page_count
set_slot_page_number one_based s =
    let count = slot_page_count s in
    let requested = if one_based == 0 then 0 else one_based - 1 in
    if count == 0 then set_page_index 0 s else set_page_index (min requested (count - 1)) s

-- The appearance that a preview of the slot begins with.
abbrev pub appearance_of : Option TattooEntry → PreviewTattooAppearance
appearance_of none = default_appearance
appearance_of (some t) = record {
  color = clamp_ℤ t.color (pos 0) (pos 0xFFFFFF);
  alpha = clamp_f t.alpha zero_f one_f;
}

unfoldable pub choose_slot :
    ℤ → PreviewTattooAppearance → NativeSlotWorkflowModel → NativeSlotWorkflowModel
choose_slot slot appearance s = record s {
  target_slot = some slot;
  preview_tattoo = none;
  preview_appearance = some appearance;
  edit_session = none;
  error = none;
}

-- The branches on what occupies the slot that was found.
unfoldable pub select_found :
    ℤ
    → SlotOccupancy
    → Option TattooEntry
    → NativeSlotWorkflowModel
    → NativeSlotWorkflowModel × Bool
unfolding choose_slot open_picker
select_found slot SlotOccupancy.external tattoo s = (s, false)
select_found slot SlotOccupancy.slave_tats tattoo s =
    (record (choose_slot slot (appearance_of tattoo) s) { screen = slot_actions }, true)
select_found slot SlotOccupancy.empty tattoo s =
    (open_picker (choose_slot slot default_appearance s), true)

abbrev pub find_slot : ℤ → Option TattooSlots → Option TattooSlot
find_slot slot none = none
find_slot slot (some current) = find_if (λ c. c.index ==ℤ slot) current.slots

unfoldable pub select_slot : ℤ → NativeSlotWorkflowModel → NativeSlotWorkflowModel × Bool
unfolding select_found
select_slot slot s = elim (find_slot slot (slots s)) [
  | none ↦ (s, false)
  | some found ↦ select_found slot found.occupancy found.tattoo s
]

unfoldable pub replace_selected_slot : NativeSlotWorkflowModel → NativeSlotWorkflowModel × Bool
unfolding open_picker
replace_selected_slot s = elim s.screen [
  | slot_actions ↦ if is_some s.target_slot then (open_picker s, true) else (s, false)
  | _ ↦ (s, false)
]

unfoldable pub request_remove : NativeSlotWorkflowModel → NativeSlotWorkflowModel × Bool
request_remove s = elim s.screen [
  | slot_actions ↦
      if is_some s.target_slot
      then (record s { error = none; screen = remove_confirmation }, true)
      else (s, false)
  | _ ↦ (s, false)
]

unfoldable pub cancel_remove : NativeSlotWorkflowModel → NativeSlotWorkflowModel
cancel_remove s = elim s.screen [
  | remove_confirmation ↦ record s { error = none; screen = slot_actions }
  | _ ↦ s
]

-- A removal that has only failed to synchronize is not done again.
abbrev pub remove_mode : Option ServiceError → RemoveTattooMode
remove_mode none = RemoveTattooMode.remove_and_synchronize
remove_mode (some e) = elim e.code [
  | synchronize_failed ↦ RemoveTattooMode.synchronize_only
  | _ ↦ RemoveTattooMode.remove_and_synchronize
]

unfoldable pub confirm_remove : NativeSlotWorkflowModel → NativeSlotWorkflowModel × Bool
confirm_remove s = elim s.screen [
  | remove_confirmation ↦ elim s.target_slot [
    | none ↦ (s, false)
    | some slot ↦ (
      record s {
        generation = next_generation s;
        pending_remove = some (record {
          generation = next_generation s;
          request = record {
            actor_form_id = player_form_id;
            area = s.selected_area;
            slot = slot;
            mode = remove_mode s.error;
          };
        });
        active_remove = some (next_generation s);
        error = none;
        screen = removing;
      },
      true,
    )
  ]
  | _ ↦ (s, false)
]

unfoldable pub back_to_slots : NativeSlotWorkflowModel → NativeSlotWorkflowModel
back_to_slots s = record s {
  screen = current_slots;
  target_slot = none;
  preview_tattoo = none;
  preview_appearance = none;
  edit_session = none;
  error = none;
}
