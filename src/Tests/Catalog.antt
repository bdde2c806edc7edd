-- ===== src/Tests/Catalog.antt =====
-- The theorems of the catalog and its browser.
use slavetat_ui.Base.{◌≡◌, ◌↔◌, refl, arith, true, codes, List, [], ◌∷◌, map, some, concat_pages}
use slavetat_ui.Repository.Query.{
  query, query_matches, new_repository, index_definition, passes_filter,
}
use slavetat_ui.Repository.Paging.{query-pages}
use slavetat_ui.Repository.Matches.{IsMatch, passes_filter_iff}
use slavetat_ui.Catalog.{new_catalog}
use slavetat_ui.Catalog.Laws.{
  Use, refreshes, searches, chooses_area, turns_to, use_all, Shows, use_all-Shows,
  new_catalog-Shows,
}
use slavetat_ui.Tests.Samples.{lion, three, small_filter, shelf}

-- Two definitions match, one to a page; the second page is the lion's.
second_page :
    (query (new_repository three) (record small_filter { page_index = 1 })).entries ≡ lion ∷ []
unfolding query new_repository
second_page = refl

query-pages_example :
    concat_pages
      (query (new_repository three) small_filter).page_count
      (λ i. (query (new_repository three) (record small_filter { page_index = i })).entries)
    ≡ map (λ e. e.definition) (query_matches (new_repository three) small_filter)
unfolding new_repository passes_filter
query-pages_example = query-pages (new_repository three) small_filter (omega arith)

passes_filter_iff_example :
    (passes_filter small_filter (index_definition lion) ≡ true) ↔ IsMatch small_filter lion
passes_filter_iff_example = passes_filter_iff small_filter lion

abbrev browsing : List Use
browsing =
    refreshes (some shelf) ∷ searches (codes "lion") ∷ chooses_area (codes "BODY") ∷ turns_to 3 ∷ []

use_all-Shows_example : Shows (use_all browsing new_catalog)
use_all-Shows_example = use_all-Shows browsing new_catalog new_catalog-Shows
