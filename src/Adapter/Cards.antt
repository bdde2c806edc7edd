-- ===== src/Adapter/Cards.antt =====
-- The cards of src/native/OfficialMenuFrameworkAdapter.cpp: what they show of slots and tattoos, and the
-- thumbnails that they ask for and look up.
use slavetat_ui.Base.{
  ℕ, ◌+◌, ◌-◌, ◌/◌, ◌%◌, min, leb, ◌==◌, ◌&&◌, not, Bool, true, false, if◌then◌else◌, suc, Text,
  codes, is_empty, length, take, drop, List, [], ◌∷◌, Option, none, some,
}
use slavetat_ui.Core.Models.{SlotOccupancy, empty, slave_tats, external, TattooSlot, TattooSlots}
use slavetat_ui.Repository.Models.{TattooDefinition, TattooPage}
use slavetat_ui.Thumbnails.State.{
  NativeThumbnailStatus, loading, missing, broken, placeholder, ready, NativeThumbnailView,
}
use slavetat_ui.Adapter.{calculate_slot_page}

pub data SlotCardTreatment : Type 0 where
  add replace disabled : SlotCardTreatment

abbrev pub slot_card_treatment : SlotOccupancy → SlotCardTreatment
slot_card_treatment empty = add
slot_card_treatment slave_tats = replace
slot_card_treatment external = disabled

pub record CatalogCardGridPosition : Type 0 where
  pub row : ℕ
  pub column : ℕ

abbrev pub catalog_card_grid_position : ℕ → ℕ → CatalogCardGridPosition
catalog_card_grid_position index column_count =
    if column_count == 0
    then record { row = 0; column = 0 }
    else record { row = index / column_count; column = index % column_count }

abbrev pub is_slave_tats : SlotOccupancy → Bool
is_slave_tats slave_tats = true
is_slave_tats occupancy = false

-- The body of the loop over the slots of a page.
abbrev pub push_slot_path : TattooSlot → List Text → List Text
push_slot_path slot rest = elim slot.tattoo [
  | none ↦ rest
  | some tattoo ↦
      if is_slave_tats slot.occupancy && not (is_empty tattoo.texture_path)
      then tattoo.texture_path ∷ rest
      else rest
]

unfoldable pub slot_paths : List TattooSlot → List Text
slot_paths [] = []
slot_paths (slot ∷ slots) = push_slot_path slot (slot_paths slots)

unfoldable pub collect_visible_slot_texture_paths : TattooSlots → ℕ → ℕ → List Text
unfolding slot_paths calculate_slot_page
collect_visible_slot_texture_paths slots page_index page_size =
    let page = calculate_slot_page (length slots.slots) page_index page_size in
    slot_paths (take (page.end - page.begin) (drop page.begin slots.slots))

abbrev pub picker_visible_card_count : TattooPage → ℕ
picker_visible_card_count page = min (length page.entries) 6

unfoldable pub card_paths : List TattooDefinition → List Text
card_paths [] = []
card_paths (entry ∷ entries) =
    let rest = card_paths entries in
    if not (is_empty entry.texture_path) then entry.texture_path ∷ rest else rest

-- The cards that are drawn.
abbrev pub visible_cards : TattooPage → List TattooDefinition
visible_cards page = take (picker_visible_card_count page) page.entries

unfoldable pub collect_picker_texture_paths : TattooPage → List Text
unfolding card_paths
collect_picker_texture_paths page = card_paths (visible_cards page)

abbrev pub canonical_thumbnail_path_character : ℕ → ℕ
canonical_thumbnail_path_character character =
    if character == b'\\'
    then b'/'
    else if leb b'A' character && leb character b'Z'
    then character - b'A' + b'a'
    else character

-- `std::ranges::equal` by `canonicalThumbnailPathCharacter`.
unfoldable pub equal_canonical : Text → Text → Bool
equal_canonical [] [] = true
equal_canonical (x ∷ xs) (y ∷ ys) =
    let rest = equal_canonical xs ys in
    if canonical_thumbnail_path_character x == canonical_thumbnail_path_character y
    then rest
    else false
equal_canonical xs ys = false

unfoldable pub equivalent_thumbnail_paths : Text → Text → Bool
unfolding equal_canonical
equivalent_thumbnail_paths left right = length left == length right && equal_canonical left right

abbrev pub next_index : Option ℕ → Option ℕ
next_index none = none
next_index (some i) = some (suc i)

unfoldable pub find_catalog_thumbnail_view_index :
    {R : Type 0} → Text → List (NativeThumbnailView R) → Option ℕ
unfolding equivalent_thumbnail_paths
find_catalog_thumbnail_view_index path [] = none
find_catalog_thumbnail_view_index path (view ∷ views) =
    let later = find_catalog_thumbnail_view_index path views in
    if equivalent_thumbnail_paths path view.texture_path then some 0 else next_index later

abbrev pub catalog_thumbnail_status_label : NativeThumbnailStatus → Text
catalog_thumbnail_status_label loading = codes "Loading"
catalog_thumbnail_status_label missing = codes "Missing"
catalog_thumbnail_status_label broken = codes "Broken"
catalog_thumbnail_status_label placeholder = []
catalog_thumbnail_status_label ready = []
