-- ===== src/Adapter/PageInput.antt =====
-- The field with the number of the page (`CatalogBrowserPageInputState` of
-- src/native/OfficialMenuFrameworkAdapter.cpp), and its frame in the window of the catalog.
use slavetat_ui.Base.{
  ℕ, ◌+◌, ◌-◌, ◌^◌, min, ℤ, pos, negsuc, ◌==ℤ◌, ◌==◌, ◌||◌, ◌&&◌, leb, not, Bool, false,
  if◌then◌else◌, u64, Option, none, some,
}
use slavetat_ui.Catalog.{NativeCatalogBrowserModel, set_page_number, previous_page, next_page}

pub record CatalogBrowserPageInputState : Type 0 where
  pub pending_page_number : ℤ
  pub committed_page_number : ℤ
  pub page_count : ℕ
  pub editing : Bool

abbrev pub new_input : CatalogBrowserPageInputState
new_input = record {
  pending_page_number = pos 0;
  committed_page_number = pos 0;
  page_count = 0;
  editing = false;
}

abbrev pub committed_number : ℕ → ℕ → ℤ
committed_number page_index page_count =
    pos (min (if page_count == 0 then 0 else u64 (page_index + 1)) (2 ^ 31 - 1))

unfoldable pub synchronize_input :
    ℕ → ℕ → CatalogBrowserPageInputState → CatalogBrowserPageInputState
synchronize_input page_index page_count s =
    let committed = committed_number page_index page_count in
    record {
      pending_page_number =
          if not s.editing
            || not (committed ==ℤ s.committed_page_number)
            || not (page_count == s.page_count)
          then committed
          else s.pending_page_number;
      committed_page_number = committed;
      page_count = page_count;
      editing = if page_count == 0 then false else s.editing;
    }

-- A number that is not positive is page 0.
abbrev pub requested_page : ℤ → ℕ
requested_page (pos n) = n
requested_page (negsuc n) = 0

unfoldable pub finish_frame :
    Bool → Bool → Bool → CatalogBrowserPageInputState → Option ℕ × CatalogBrowserPageInputState
finish_frame item_active committed_on_enter committed_on_deactivate s =
    if s.page_count == 0
    then (none, record s { editing = false })
    else if committed_on_enter || committed_on_deactivate
    then (some (requested_page s.pending_page_number), record s { editing = false })
    else (none, record s { editing = item_active })

-- What the user does with the controls in a frame: the buttons, and the field, whose number he may have
-- changed. A button that is disabled is not pressed.
pub record PageControls : Type 0 where
  pub prev : Bool
  pub typed : Option ℤ
  pub item_active : Bool
  pub committed_on_deactivate : Bool
  pub next : Bool

abbrev pub typed_into : Option ℤ → CatalogBrowserPageInputState → CatalogBrowserPageInputState
typed_into none s = s
typed_into (some number) s = record s { pending_page_number = number }

abbrev pub request_page : Option ℕ → NativeCatalogBrowserModel → NativeCatalogBrowserModel
request_page none m = m
request_page (some number) m = set_page_number number m

abbrev pub press_prev : Bool → NativeCatalogBrowserModel → NativeCatalogBrowserModel
press_prev pressed m =
    if pressed && not (m.page.page_count == 0 || m.page.page_index == 0) then previous_page m else m

-- `has_pages` is as it was at the start of the frame.
abbrev pub press_next : Bool → Bool → NativeCatalogBrowserModel → NativeCatalogBrowserModel
press_next has_pages pressed m =
    if pressed && not (not has_pages || leb m.page.page_count (u64 (m.page.page_index + 1)))
    then next_page m
    else m

-- The field, and the page that it asks for.
unfoldable pub page_field :
    PageControls
    → CatalogBrowserPageInputState × NativeCatalogBrowserModel
    → CatalogBrowserPageInputState × NativeCatalogBrowserModel
unfolding synchronize_input finish_frame
page_field f (s, m) =
    let shown = synchronize_input m.page.page_index m.page.page_count s in
    let (request, s') =
      finish_frame f.item_active false f.committed_on_deactivate (typed_into f.typed shown) in
    (s', request_page request m)

unfoldable pub page_frame :
    PageControls
    → CatalogBrowserPageInputState × NativeCatalogBrowserModel
    → CatalogBrowserPageInputState × NativeCatalogBrowserModel
unfolding page_field
page_frame f (s, m) =
    let (s', m') = page_field f (s, press_prev f.prev m) in
    (s', press_next (not (m.page.page_count == 0)) f.next m')
