-- ===== src/Tests/Framework.antt =====
-- The theorems of the adapter's port, of its cards and of the field with the number of the page.
use slavetat_ui.Base.{
  ◌≡◌, refl, arith, ◌⊎◌, pos, Bool, true, false, not, ◌&&◌, is_empty, List, [], ◌∷◌, All, some,
}
use slavetat_ui.Repository.Models.{TattooPage}
use slavetat_ui.Repository.Query.{query, new_repository}
use slavetat_ui.Catalog.{NativeCatalogBrowserModel, new_catalog, refresh, run_query}
use slavetat_ui.Menu.{new_menu, register_menu, is_open, handle_framework_hotkey, version_3}
use slavetat_ui.Menu.Laws.{Use, registers, selects, act_all}
use slavetat_ui.Adapter.Port.{
  MenuFrameworkBindings, AdapterState, framework_version, set_section_path, add_section_item_path,
  add_blocking_window, adapter_port,
}
use slavetat_ui.Adapter.Opening.{adapter_hotkey-flips}
use slavetat_ui.Adapter.Cards.{visible_cards, collect_picker_texture_paths}
use slavetat_ui.Adapter.Shown.{FindsView, cards-FindsView}
use slavetat_ui.Adapter.PageInput.{PageControls, new_input, synchronize_input, page_field}
use slavetat_ui.Adapter.PageShown.{ShowsNearest, committed-shown}
use slavetat_ui.Catalog.Laws.{
  refreshes, use_catalog, use_all, Shows, new_catalog-Shows, use_all-Shows,
}
use slavetat_ui.Thumbnails.Runtime.{new_runtime, synchronize}
use slavetat_ui.Tests.Thumbnails.{source}
use slavetat_ui.Tests.Samples.{three, shelf}

-- The framework has one window, at 8; the world is whether it is open.
abbrev framework : MenuFrameworkBindings Bool
framework = record {
  get_version = some (λ w. version_3);
  add_section_item = some (λ path w. w);
  add_window = some (λ w. (8, w));
  set_window_open = some (λ window value w. value);
  is_window_open = some (λ window w. w);
  set_window_blocking = some (λ window value w. w);
}

abbrev opening : List (Use (AdapterState Bool))
opening = registers ∷ (selects (some (λ s. (some true, s))) ∷ [])

registered : (act_all (adapter_port framework) opening (new_menu, ([], false))).0.registered ≡ true
unfolding act_all register_menu framework_version set_section_path add_section_item_path
    add_blocking_window
registered = refl

adapter_hotkey-flips_example :
    let port = adapter_port framework in
    let (m, s) = act_all port opening (new_menu, ([], false)) in
    is_open port m (handle_framework_hotkey port true true true m s).1
    ≡ (m.registered && not (is_open port m s))
adapter_hotkey-flips_example =
    adapter_hotkey-flips framework (λ window value w. value) (λ window w. w) refl refl
      (λ window value w. refl) opening [] false

-- The page of three tattoos.
abbrev page : TattooPage
page = record {
  entries = three;
  total_entries = 3;
  matched_entries = 3;
  page_index = 0;
  page_size = 6;
  page_count = 1;
}

cards-FindsView_example :
    let after = (synchronize source 4 7 (collect_picker_texture_paths page) (new_runtime, 0)).1.0 in
    All
      (λ card.
        (is_empty card.texture_path ≡ true) ⊎ FindsView after.controller.views card.texture_path)
      (visible_cards page)
unfolding synchronize collect_picker_texture_paths
cards-FindsView_example = cards-FindsView source 4 7 page new_runtime 0 refl refl

abbrev browsing : NativeCatalogBrowserModel
browsing = refresh (some shelf) new_catalog

abbrev types_nine : PageControls
types_nine = record {
  prev = false;
  typed = some (pos 9);
  item_active = false;
  committed_on_deactivate = true;
  next = false;
}

shelf-Shows : Shows browsing
unfolding refresh use_all use_catalog
shelf-Shows = use_all-Shows (refreshes (some shelf) ∷ []) new_catalog new_catalog-Shows

committed-shown_example :
    let (s, m) = page_field types_nine (new_input, browsing) in
    ShowsNearest (pos 9) shelf browsing m (synchronize_input m.page.page_index m.page.page_count s)
unfolding refresh query new_repository run_query
committed-shown_example =
    committed-shown types_nine (pos 9) new_input browsing shelf refl shelf-Shows.1.0 (ground arith)
      (ground arith) refl refl
