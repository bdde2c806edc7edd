-- ===== src/Catalog.antt =====
-- src/native/NativeCatalogBrowserModel.{h,cpp}: the filter and the page of the catalog browser. The children
-- Loader and Store have src/repository/TattooCatalogLoader.cpp and TattooCatalogStore.cpp.
pub mod Laws
pub mod Loader
pub mod Loaded
pub mod Store
pub mod Shown
use slavetat_ui.Base.{
  ℕ, ◌+◌, ◌-◌, Bool, true, false, ◌||◌, not, ltb, leb, ◌==◌, if◌then◌else◌, u64, Text, is_empty,
  eq_text, any_of, List, [], ◌∷◌, Option, none, some,
}
use slavetat_ui.Repository.Models.{
  TattooFilter, TattooPage, TattooSourceOption, TattooFacets, TattooRepository, no_facets,
}
use slavetat_ui.Repository.Sort.{fold_char}
use slavetat_ui.Repository.Facets.{contextual_facets}
use slavetat_ui.Repository.Query.{query}

abbrev pub page_size : ℕ
page_size = 6

-- `equalsFoldedASCII`: the same text but for the case of ASCII letters.
unfoldable pub equals_folded : Text → Text → Bool
equals_folded [] [] = true
equals_folded (x ∷ xs) (y ∷ ys) = if fold_char x == fold_char y then equals_folded xs ys else false
equals_folded xs ys = false

abbrev pub contains_folded : List Text → Text → Bool
contains_folded values value = any_of (λ c. equals_folded c value) values

abbrev pub source_ids : List TattooSourceOption → List Text
source_ids [] = []
source_ids (s ∷ ss) = s.source_id ∷ source_ids ss

-- A shared snapshot of the catalog. Two are the same if they are one object, at one `address`.
pub record Snapshot : Type 0 where
  pub address : ℕ
  pub repository : TattooRepository

abbrev pub eq_snapshot : Option Snapshot → Option Snapshot → Bool
eq_snapshot none none = true
eq_snapshot (some a) (some b) = a.address == b.address
eq_snapshot a b = false

abbrev pub empty_filter : TattooFilter
empty_filter = record {
  search = [];
  source_id = [];
  section = [];
  area = [];
  page_index = 0;
  page_size = page_size;
}

abbrev pub empty_page : TattooPage
empty_page = record {
  entries = [];
  total_entries = 0;
  matched_entries = 0;
  page_index = 0;
  page_size = page_size;
  page_count = 0;
}

pub record NativeCatalogBrowserModel : Type 0 where
  pub snapshot : Option Snapshot
  pub filter : TattooFilter
  pub page : TattooPage

abbrev pub new_catalog : NativeCatalogBrowserModel
new_catalog = record { snapshot = none; filter = empty_filter; page = empty_page }

-- `query()` of the browser.
unfoldable pub run_query : NativeCatalogBrowserModel → NativeCatalogBrowserModel
run_query m = elim m.snapshot [
  | none ↦ record m { page = empty_page }
  | some s ↦
      let page = query s.repository m.filter in
      record m {
        page = page;
        filter = record (m.filter) { page_index = page.page_index; page_size = page_size };
      }
]

unfoldable pub contextual_facets_of : NativeCatalogBrowserModel → TattooFacets
contextual_facets_of m = elim m.snapshot [
  | none ↦ no_facets
  | some s ↦ contextual_facets s.repository m.filter
]

-- A source that the area does not offer is cleared.
abbrev pub reconcile_source : TattooRepository → TattooFilter → TattooFilter
reconcile_source r f =
    if is_empty f.source_id
      || contains_folded (source_ids (contextual_facets r f).sources) f.source_id
    then f
    else record f { source_id = [] }

-- A section that the area and the source do not offer is cleared.
abbrev pub reconcile_section : TattooRepository → TattooFilter → TattooFilter
reconcile_section r f =
    if is_empty f.section || contains_folded (contextual_facets r f).sections f.section
    then f
    else record f { section = [] }

unfoldable pub reconcile_contextual_filters : NativeCatalogBrowserModel → NativeCatalogBrowserModel
reconcile_contextual_filters m = elim m.snapshot [
  | none ↦ record m { filter = record (m.filter) { source_id = []; section = [] } }
  | some s ↦ record m {
    filter = reconcile_section s.repository (reconcile_source s.repository m.filter);
  }
]

-- `refresh`, given what the provider returns.
unfoldable pub refresh : Option Snapshot → NativeCatalogBrowserModel → NativeCatalogBrowserModel
unfolding run_query
refresh next m =
    if eq_snapshot next m.snapshot
    then m
    else run_query (record m { snapshot = next; filter = empty_filter })

unfoldable pub set_search : Text → NativeCatalogBrowserModel → NativeCatalogBrowserModel
unfolding run_query
set_search value m =
    run_query (record m { filter = record (m.filter) { search = value; page_index = 0 } })

unfoldable pub set_source_id : Text → NativeCatalogBrowserModel → NativeCatalogBrowserModel
unfolding run_query reconcile_contextual_filters
set_source_id value m = run_query (
    reconcile_contextual_filters
      (record m { filter = record (m.filter) { source_id = value; page_index = 0 } }))

unfoldable pub set_section : Text → NativeCatalogBrowserModel → NativeCatalogBrowserModel
unfolding run_query reconcile_contextual_filters
set_section value m = run_query (
    reconcile_contextual_filters
      (record m { filter = record (m.filter) { section = value; page_index = 0 } }))

unfoldable pub set_area : Text → NativeCatalogBrowserModel → NativeCatalogBrowserModel
unfolding run_query reconcile_contextual_filters
set_area value m = run_query (
    reconcile_contextual_filters
      (record m { filter = record (m.filter) { area = value; page_index = 0 } }))

unfoldable pub previous_page : NativeCatalogBrowserModel → NativeCatalogBrowserModel
unfolding run_query
previous_page m =
    if m.filter.page_index == 0
    then m
    else run_query
        (record m { filter = record (m.filter) { page_index = m.filter.page_index - 1 } })

unfoldable pub next_page : NativeCatalogBrowserModel → NativeCatalogBrowserModel
unfolding run_query
next_page m =
    if m.page.page_count == 0 || leb m.page.page_count (u64 (m.filter.page_index + 1))
    then m
    else run_query
        (record m { filter = record (m.filter) { page_index = u64 (m.filter.page_index + 1) } })

unfoldable pub set_page_number : ℕ → NativeCatalogBrowserModel → NativeCatalogBrowserModel
unfolding run_query
set_page_number one_based m = run_query (record m {
  filter = record (m.filter) { page_index = if one_based == 0 then 0 else one_based - 1 };
})
