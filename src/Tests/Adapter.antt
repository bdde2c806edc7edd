-- ===== src/Tests/Adapter.antt =====
-- The theorems of what is drawn.
use slavetat_ui.Base.{◌+◌, ◌≤◌, ◌<◌, ◌≡◌, refl, arith, is_some, length}
use slavetat_ui.Catalog.{new_catalog}
use slavetat_ui.Workflow.State.{slot_page_index, slot_page_count}
use slavetat_ui.Workflow.Commands.{run, step}
use slavetat_ui.Adapter.{
  calculate_slot_page, is_preview_apply_enabled, is_appearance_save_enabled,
  is_remove_confirmation_enabled,
}
use slavetat_ui.Workflow.Actions.{confirm_remove}
use slavetat_ui.Workflow.Edits.{confirm_apply, confirm_appearance_update}
use slavetat_ui.Workflow.Window.{IsConsistent}
use slavetat_ui.Adapter.Buttons.{enabled_succeeds}
use slavetat_ui.Adapter.Pages.{drawn_page_agrees}
use slavetat_ui.Tests.Samples.{two_slots, opening, confirming, after_commands}

-- Of twenty slots, the thirteenth is on the third page.
drawn_page_agrees_example :
    let s = after_commands opening in
    let page = calculate_slot_page (length two_slots.slots) (slot_page_index s) 6 in
    (page.page_index ≡ slot_page_index s)
    × (page.page_count ≡ slot_page_count s)
    × (page.begin < page.end)
    × (page.end ≤ length two_slots.slots)
    × (page.end ≤ page.begin + 6)
unfolding run step
drawn_page_agrees_example =
    drawn_page_agrees new_catalog opening two_slots refl (omega arith) (omega arith)

confirming_holds : IsConsistent (after_commands confirming)
unfolding run step
confirming_holds = ground arith

enabled_succeeds_example :
    let s = after_commands confirming in
    ((confirm_apply s).1
      ≡ is_preview_apply_enabled s.screen (is_some s.target_slot) (is_some s.preview_tattoo))
    × ((confirm_remove s).1 ≡ is_remove_confirmation_enabled s.screen (is_some s.target_slot))
    × ((confirm_appearance_update s).1 ≡ is_appearance_save_enabled s.screen s.edit_session)
enabled_succeeds_example = enabled_succeeds (after_commands confirming) confirming_holds
