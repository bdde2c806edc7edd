-- ===== src/Adapter.antt =====
-- What the window draws and enables (src/native/OfficialMenuFrameworkAdapter.{h,cpp}): the pages of
-- slots, and the buttons that ask for a call. The children have the cards, the field with the number
-- of the page, and the port of the menu.
use slavetat_ui.Base.{
  ℕ, ◌+◌, ◌-◌, ◌*◌, min, Bool, true, false, not, ◌&&◌, ◌||◌, ◌==◌, if◌then◌else◌, u64, count_pages,
  Option, none, some,
}
use slavetat_ui.Workflow.State.{
  SlotWorkflowScreen, preview, edit_appearance, remove_confirmation, AppearanceEditSession,
}
use slavetat_ui.Workflow.Edits.{eq_appearance}
pub mod Pages
pub mod Buttons
pub mod Cards
pub mod Views
pub mod Shown
pub mod Port
pub mod Opening
pub mod PageInput
pub mod PageShown

pub record SlotPageRange : Type 0 where
  pub page_index : ℕ
  pub page_count : ℕ
  pub begin : ℕ
  pub end : ℕ

unfoldable pub calculate_slot_page : ℕ → ℕ → ℕ → SlotPageRange
calculate_slot_page slot_count requested_page page_size =
    if slot_count == 0 || page_size == 0
    then record { page_index = 0; page_count = 0; begin = 0; end = 0 }
    else let page_count = u64 (count_pages slot_count page_size) in
      let page_index = min requested_page (page_count - 1) in
      let begin = u64 (page_index * page_size) in
      record {
        page_index = page_index;
        page_count = page_count;
        begin = begin;
        end = min slot_count (u64 (begin + page_size));
      }

-- `screen == SlotWorkflowScreen::preview` and its like.
abbrev pub is_preview : SlotWorkflowScreen → Bool
is_preview preview = true
is_preview screen = false

abbrev pub is_edit_appearance : SlotWorkflowScreen → Bool
is_edit_appearance edit_appearance = true
is_edit_appearance screen = false

abbrev pub is_remove_confirmation : SlotWorkflowScreen → Bool
is_remove_confirmation remove_confirmation = true
is_remove_confirmation screen = false

unfoldable pub is_preview_apply_enabled : SlotWorkflowScreen → Bool → Bool → Bool
is_preview_apply_enabled screen has_target has_tattoo =
    is_preview screen && has_target && has_tattoo

unfoldable pub is_appearance_save_enabled : SlotWorkflowScreen → Option AppearanceEditSession → Bool
is_appearance_save_enabled screen none = false
is_appearance_save_enabled screen (some session) =
    is_edit_appearance screen && not (eq_appearance session.edited session.original)

unfoldable pub is_remove_confirmation_enabled : SlotWorkflowScreen → Bool → Bool
is_remove_confirmation_enabled screen has_target = is_remove_confirmation screen && has_target
