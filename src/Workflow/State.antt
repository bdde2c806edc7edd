-- ===== src/Workflow/State.antt =====
-- The state of `NativeSlotWorkflowModel`, and the members that read it or serve the operations.
use slavetat_ui.Base.{
  ℕ, zero, suc, ◌+◌, ◌-◌, min, Bool, true, false, ◌==◌, if◌then◌else◌, u64, ℤ, pos, Float, one_f,
  Text, codes, length, count_pages, ◌∷◌, Option, none, some,
}
use slavetat_ui.Core.Models.{
  TattooArea, body, face, hands, feet, other, TattooSlots, ApplyTattooRequest, RemoveTattooRequest,
  UpdateTattooAppearanceMode, UpdateTattooAppearanceRequest, ServiceError,
}
use slavetat_ui.Repository.Models.{TattooDefinition}
use slavetat_ui.Repository.Sort.{fold_char}
use slavetat_ui.Catalog.{NativeCatalogBrowserModel, set_area}

pub data SlotWorkflowScreen : Type 0 where
  current_slots slot_actions picker preview applying : SlotWorkflowScreen
  edit_appearance saving_appearance remove_confirmation removing : SlotWorkflowScreen

pub record SlotQueryTicket : Type 0 where
  pub generation : ℕ
  pub actor_form_id : ℕ
  pub area : TattooArea

pub record SlotApplyTicket : Type 0 where
  pub generation : ℕ
  pub request : ApplyTattooRequest

pub record SlotRemoveTicket : Type 0 where
  pub generation : ℕ
  pub request : RemoveTattooRequest

pub record SlotAppearanceTicket : Type 0 where
  pub generation : ℕ
  pub request : UpdateTattooAppearanceRequest

pub record PreviewTattooAppearance : Type 0 where
  pub color : ℤ
  pub alpha : Float

abbrev pub default_appearance : PreviewTattooAppearance
default_appearance = record { color = pos 0xFFFFFF; alpha = one_f }

pub record AppearanceEditSession : Type 0 where
  pub actor_form_id : ℕ
  pub area : TattooArea
  pub slot : ℤ
  pub runtime_handle : ℤ
  pub texture_path : Text
  pub original : PreviewTattooAppearance
  pub edited : PreviewTattooAppearance
  pub mode : UpdateTattooAppearanceMode

pub record AreaState : Type 0 where
  pub slots : Option TattooSlots
  pub page_index : ℕ

-- `std::array<AreaState, 4>`.
pub record AreaStates : Type 0 where
  pub at_body : AreaState
  pub at_face : AreaState
  pub at_hands : AreaState
  pub at_feet : AreaState

pub record NativeSlotWorkflowModel : Type 0 where
  pub catalog : NativeCatalogBrowserModel
  pub area_states : AreaStates
  pub screen : SlotWorkflowScreen
  pub selected_area : TattooArea
  pub target_slot : Option ℤ
  pub preview_tattoo : Option TattooDefinition
  pub preview_appearance : Option PreviewTattooAppearance
  pub error : Option ServiceError
  pub pending_slot_query : Option SlotQueryTicket
  pub pending_apply : Option SlotApplyTicket
  pub pending_remove : Option SlotRemoveTicket
  pub pending_appearance : Option SlotAppearanceTicket
  pub active_slot_query : Option ℕ
  pub active_apply : Option ℕ
  pub active_remove : Option ℕ
  pub active_appearance : Option ℕ
  pub edit_session : Option AppearanceEditSession
  pub generation : ℕ
  pub started : Bool

abbrev pub fresh_area : AreaState
fresh_area = record { slots = none; page_index = 0 }

abbrev pub fresh_areas : AreaStates
fresh_areas = record {
  at_body = fresh_area;
  at_face = fresh_area;
  at_hands = fresh_area;
  at_feet = fresh_area;
}

abbrev pub new_workflow : NativeCatalogBrowserModel → NativeSlotWorkflowModel
new_workflow catalog = record {
  catalog = catalog;
  area_states = fresh_areas;
  screen = current_slots;
  selected_area = body;
  target_slot = none;
  preview_tattoo = none;
  preview_appearance = none;
  error = none;
  pending_slot_query = none;
  pending_apply = none;
  pending_remove = none;
  pending_appearance = none;
  active_slot_query = none;
  active_apply = none;
  active_remove = none;
  active_appearance = none;
  edit_session = none;
  generation = 0;
  started = false;
}

abbrev pub player_form_id : ℕ
player_form_id = 0x14

abbrev pub page_size : ℕ
page_size = 6

unfoldable pub area_name : TattooArea → Text
area_name body = codes "BODY"
area_name face = codes "FACE"
area_name hands = codes "HANDS"
area_name feet = codes "FEET"
area_name (other n) = codes "BODY"

-- The character loop of `equalsFoldedASCII`, on texts of one size.
fold_loop : Text → Text → Bool
fold_loop (x ∷ xs) (y ∷ ys) = if fold_char x == fold_char y then fold_loop xs ys else false
fold_loop xs ys = true

unfoldable pub equals_folded_ascii : Text → Text → Bool
unfolding fold_loop
equals_folded_ascii left right = if length left == length right then fold_loop left right else false

abbrev pub area_index : TattooArea → ℕ
area_index body = 0
area_index face = 1
area_index hands = 2
area_index feet = 3
area_index (other n) = 0

abbrev pub get_area : ℕ → AreaStates → AreaState
get_area zero a = a.at_body
get_area (suc zero) a = a.at_face
get_area (suc (suc zero)) a = a.at_hands
get_area (suc (suc (suc n))) a = a.at_feet

abbrev pub set_area_state : ℕ → AreaState → AreaStates → AreaStates
set_area_state zero v a = record a { at_body = v }
set_area_state (suc zero) v a = record a { at_face = v }
set_area_state (suc (suc zero)) v a = record a { at_hands = v }
set_area_state (suc (suc (suc n))) v a = record a { at_feet = v }

abbrev pub selected_state : NativeSlotWorkflowModel → AreaState
selected_state s = get_area (area_index s.selected_area) s.area_states

abbrev pub slots : NativeSlotWorkflowModel → Option TattooSlots
slots s = (selected_state s).slots

abbrev pub slot_page_index : NativeSlotWorkflowModel → ℕ
slot_page_index s = (selected_state s).page_index

abbrev pub page_count_of : Option TattooSlots → ℕ
page_count_of none = 0
page_count_of (some t) = count_pages (length t.slots) page_size

unfoldable pub slot_page_count : NativeSlotWorkflowModel → ℕ
slot_page_count s = page_count_of (slots s)

-- Writes `selectedState().pageIndex`.
unfoldable pub set_page_index : ℕ → NativeSlotWorkflowModel → NativeSlotWorkflowModel
set_page_index i s = record s {
  area_states =
      set_area_state (area_index s.selected_area) (record (selected_state s) { page_index = i })
        s.area_states;
}

unfoldable pub clamp_selected_page : NativeSlotWorkflowModel → NativeSlotWorkflowModel
unfolding set_page_index slot_page_count
clamp_selected_page s =
    set_page_index
      (if slot_page_count s == 0 then 0 else min (slot_page_index s) (slot_page_count s - 1)) s

-- `++m_generation`, by 64 bits.
abbrev pub next_generation : NativeSlotWorkflowModel → ℕ
next_generation s = u64 (s.generation + 1)

unfoldable pub schedule_slot_query : TattooArea → NativeSlotWorkflowModel → NativeSlotWorkflowModel
schedule_slot_query area s =
    let g = next_generation s in
    record s {
      generation = g;
      pending_slot_query =
          some (record { generation = g; actor_form_id = player_form_id; area = area });
      active_slot_query = some g;
      error = none;
    }

unfoldable pub open_picker : NativeSlotWorkflowModel → NativeSlotWorkflowModel
open_picker s =
    let target = area_name s.selected_area in
    record s {
      catalog =
          if equals_folded_ascii s.catalog.filter.area target
          then s.catalog
          else set_area target s.catalog;
      screen = picker;
    }
