-- ===== src/Workflow/Window.antt =====
-- The workflow as the window drives it (src/native/OfficialMenuFrameworkAdapter.cpp): each screen
-- offers its own controls, and none while the plugin waits for an answer.
use slavetat_ui.Base.{◌≡◌, arith, Bool, true, false, is_some, Option, none, some, ◌⊎◌}
use slavetat_ui.Core.Models.{TattooArea}
use slavetat_ui.Repository.Models.{TattooDefinition}
use slavetat_ui.Workflow.State.{
  NativeSlotWorkflowModel, SlotWorkflowScreen, current_slots, slot_actions, picker, preview,
  applying, edit_appearance, saving_appearance, remove_confirmation, removing, area_name,
  equals_folded_ascii,
}
use slavetat_ui.Workflow.Commands.{
  Command, step, starts, refreshes, turns_back, turns_forward, replaces, requests_remove,
  cancels_remove, confirms_remove, goes_back, cancels_preview, confirms_apply, begins_edit,
  cancels_edit, confirms_update, selects_area, turns_to, selects_slot, selects_tattoo, sets_preview,
  sets_edited,
}

-- The screens that have a control for the command. What the background does is not the window's.
abbrev pub Offers : Command → SlotWorkflowScreen → Type 0
Offers refreshes screen = screen ≡ current_slots
Offers turns_back screen = screen ≡ current_slots
Offers turns_forward screen = screen ≡ current_slots
Offers (turns_to n) screen = screen ≡ current_slots
Offers (selects_area area) screen = screen ≡ current_slots
Offers (selects_slot slot) screen = screen ≡ current_slots
Offers replaces screen = screen ≡ slot_actions
Offers requests_remove screen = screen ≡ slot_actions
Offers begins_edit screen = screen ≡ slot_actions
Offers goes_back screen = (screen ≡ slot_actions) ⊎ (screen ≡ picker)
Offers cancels_remove screen = screen ≡ remove_confirmation
Offers confirms_remove screen = screen ≡ remove_confirmation
Offers (selects_tattoo tattoo) screen = screen ≡ picker
Offers (sets_preview color alpha) screen = screen ≡ preview
Offers cancels_preview screen = screen ≡ preview
Offers confirms_apply screen = screen ≡ preview
Offers (sets_edited color alpha) screen = screen ≡ edit_appearance
Offers cancels_edit screen = screen ≡ edit_appearance
Offers confirms_update screen = screen ≡ edit_appearance
Offers background screen = Unit {0}

abbrev Fits : Option TattooDefinition → TattooArea → Type 0
Fits none area = ⊥
Fits (some tattoo) area = equals_folded_ascii tattoo.area (area_name area) ≡ true

-- A slot is chosen, with an appearance to begin from.
abbrev HasTarget : NativeSlotWorkflowModel → Type 0
HasTarget s = (is_some s.target_slot ≡ true) × (is_some s.preview_appearance ≡ true)

abbrev Waits : NativeSlotWorkflowModel → Bool → Bool → Bool → Type 0
Waits s apply remove update =
    (is_some s.active_apply ≡ apply)
    × (is_some s.active_remove ≡ remove)
    × (is_some s.active_appearance ≡ update)

-- What each screen shows is there, and a screen waits for a call exactly if it is the call's own.
abbrev ScreenHolds : SlotWorkflowScreen → NativeSlotWorkflowModel → Type 0
ScreenHolds current_slots s = (s.target_slot ≡ none) × Waits s false false false
ScreenHolds slot_actions s = HasTarget s × Waits s false false false
ScreenHolds picker s = HasTarget s × Waits s false false false
ScreenHolds preview s =
    HasTarget s × Fits s.preview_tattoo s.selected_area × Waits s false false false
ScreenHolds applying s =
    HasTarget s × Fits s.preview_tattoo s.selected_area × Waits s true false false
ScreenHolds edit_appearance s =
    HasTarget s × (is_some s.edit_session ≡ true) × Waits s false false false
ScreenHolds saving_appearance s =
    HasTarget s × (is_some s.edit_session ≡ true) × Waits s false false true
ScreenHolds remove_confirmation s = HasTarget s × Waits s false false false
ScreenHolds removing s = HasTarget s × Waits s false true false

abbrev pub IsConsistent : NativeSlotWorkflowModel → Type 0
IsConsistent s = ScreenHolds s.screen s

-- Whatever the window offers, and whatever the background does, keeps the screen consistent.
pub step-IsConsistent :
    (c : Command) (s : NativeSlotWorkflowModel)
    → Offers c s.screen
    → IsConsistent s
    → IsConsistent (step c s)
unfolding step
step-IsConsistent starts s o h = ground arith
step-IsConsistent c s o h = ground arith
