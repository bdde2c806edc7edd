-- ===== src/Catalog/Laws.antt =====
-- What holds of the catalog browser after any use.
use slavetat_ui.Base.{
  List, ◌∷◌, Bool-cases, leb, u64, ◌==◌, if◌then◌else◌, ℕ, ◌+◌, ◌-◌, ◌≡◌, inl, inr, refl, sym, ap,
  ◌∙◌, arith, Bool, true, ◌||◌, is_empty, Text, [], Option, none, some,
}
use slavetat_ui.Repository.Models.{TattooFilter, TattooPage, TattooRepository}
use slavetat_ui.Repository.Facets.{contextual_facets}
use slavetat_ui.Repository.Query.{query}
use slavetat_ui.Repository.Paging.{clamp_page_idem}
use slavetat_ui.Catalog.{
  eq_snapshot, empty_filter, NativeCatalogBrowserModel, Snapshot, page_size, empty_page,
  new_catalog, contains_folded, source_ids, reconcile_source, reconcile_section,
  reconcile_contextual_filters, run_query, refresh, set_search, set_source_id, set_section,
  set_area, previous_page, next_page, set_page_number,
}

-- The operations of the browser.
pub data Use : Type 0 where
  refreshes : Option Snapshot → Use
  searches chooses_source chooses_section chooses_area : Text → Use
  turns_back turns_forward : Use
  turns_to : ℕ → Use

unfoldable pub use_catalog : Use → NativeCatalogBrowserModel → NativeCatalogBrowserModel
unfolding refresh set_search set_source_id set_section set_area previous_page next_page
    set_page_number
use_catalog (refreshes next) m = refresh next m
use_catalog (searches value) m = set_search value m
use_catalog (chooses_source value) m = set_source_id value m
use_catalog (chooses_section value) m = set_section value m
use_catalog (chooses_area value) m = set_area value m
use_catalog turns_back m = previous_page m
use_catalog turns_forward m = next_page m
use_catalog (turns_to n) m = set_page_number n m

abbrev pub Offered : Text → Bool → Type 0
Offered value listed = (is_empty value || listed) ≡ true

-- The source and the section that are chosen are ones that the browser offers, or none.
abbrev pub IsReconciled : Option Snapshot → TattooFilter → Type 0
IsReconciled none f = (f.source_id ≡ []) × (f.section ≡ []) × (f.page_size ≡ page_size)
IsReconciled (some s) f =
    Offered f.source_id
      (contains_folded (source_ids (contextual_facets s.repository f).sources) f.source_id)
    × Offered f.section (contains_folded (contextual_facets s.repository f).sections f.section)
    × (f.page_size ≡ page_size)

-- The page is what the filter finds, and the filter names the page.
abbrev pub IsCurrent : Option Snapshot → TattooFilter → TattooPage → Type 0
IsCurrent none f p = p ≡ empty_page
IsCurrent (some s) f p = (p ≡ query s.repository f) × (f.page_index ≡ p.page_index)

abbrev pub Shows : NativeCatalogBrowserModel → Type 0
Shows m = IsReconciled m.snapshot m.filter × IsCurrent m.snapshot m.filter m.page

-- Asking again for the page that was found finds it.
pub query-page_index :
    (r : TattooRepository) (f : TattooFilter)
    → query r (record f { page_index = (query r f).page_index }) ≡ query r f
unfolding query
query-page_index r f = rw (clamp_page_idem _ f.page_index)

query_found :
    (r : TattooRepository) (f : TattooFilter)
    → f.page_size ≡ page_size
    → query r f ≡ query r (record f { page_index = (query r f).page_index; page_size = page_size })
query_found r f h =
    sym (query-page_index r f)
    ∙ ap (λ n. query r (record f { page_index = (query r f).page_index; page_size = n })) h

run_query-some :
    (s : Snapshot) (f : TattooFilter) (p : TattooPage)
    → IsReconciled (some s) f
    → Shows (run_query (record { snapshot = some s; filter = f; page = p }))
unfolding run_query contextual_facets
run_query-some s f p h = ((h.0, h.1, refl), (query_found s.repository f h.2, refl))

run_query-none :
    (f : TattooFilter) (p : TattooPage)
    → IsReconciled none f
    → Shows (run_query (record { snapshot = none; filter = f; page = p }))
unfolding run_query
run_query-none f p h = (h, refl)

run_query-Shows :
    (o : Option Snapshot) (f : TattooFilter) (p : TattooPage)
    → IsReconciled o f
    → Shows (run_query (record { snapshot = o; filter = f; page = p }))
run_query-Shows none f p h = run_query-none f p h
run_query-Shows (some s) f p h = run_query-some s f p h

reconcile_source_lem :
    (r : TattooRepository) (f : TattooFilter)
    → let g = reconcile_source r f in
      Offered g.source_id (contains_folded (source_ids (contextual_facets r g).sources) g.source_id)
reconcile_source_lem r f = ground arith

reconcile_section_lem :
    (r : TattooRepository) (f : TattooFilter)
    → let g = reconcile_section r f in
      Offered g.section (contains_folded (contextual_facets r g).sections g.section)
reconcile_section_lem r f = ground arith

-- The sources that are offered do not depend on the section.
reconcile_section_sources :
    (r : TattooRepository) (f : TattooFilter)
    → Offered f.source_id (contains_folded (source_ids (contextual_facets r f).sources) f.source_id)
    → let g = reconcile_section r f in
      Offered g.source_id (contains_folded (source_ids (contextual_facets r g).sources) g.source_id)
unfolding contextual_facets
reconcile_section_sources r f h = ground arith

reconcile-page_size :
    (r : TattooRepository) (f : TattooFilter)
    → (reconcile_section r (reconcile_source r f)).page_size ≡ f.page_size
reconcile-page_size r f = ground arith

reconcile-IsReconciled :
    (o : Option Snapshot) (f : TattooFilter) (p : TattooPage)
    → f.page_size ≡ page_size
    → let m = reconcile_contextual_filters (record { snapshot = o; filter = f; page = p }) in
      (m.snapshot ≡ o) × IsReconciled o m.filter
unfolding reconcile_contextual_filters
reconcile-IsReconciled none f p h = (refl, (refl, refl, h))
reconcile-IsReconciled (some s) f p h =
    let g = reconcile_source s.repository f in
    (
      refl,
      (
        reconcile_section_sources s.repository g (reconcile_source_lem s.repository f),
        reconcile_section_lem s.repository g,
        reconcile-page_size s.repository f ∙ h,
      ),
    )

-- The way of every setter that changes what is offered.
set-Shows :
    (o : Option Snapshot) (f : TattooFilter) (p : TattooPage)
    → f.page_size ≡ page_size
    → Shows
        (run_query (reconcile_contextual_filters (record { snapshot = o; filter = f; page = p })))
unfolding reconcile_contextual_filters
set-Shows none f p h = run_query-Shows none _ p (refl, refl, h)
set-Shows (some s) f p h = run_query-Shows (some s) _ p (reconcile-IsReconciled (some s) f p h).1

-- What is offered depends neither on the search nor on the page.
move-IsReconciled :
    (o : Option Snapshot) (f : TattooFilter) (search : Text) (i : ℕ)
    → IsReconciled o f
    → IsReconciled o (record f { search = search; page_index = i })
unfolding contextual_facets
move-IsReconciled none f search i h = h
move-IsReconciled (some s) f search i h = h

IsReconciled-page_size :
    (o : Option Snapshot) (f : TattooFilter) → IsReconciled o f → f.page_size ≡ page_size
IsReconciled-page_size none f h = h.2
IsReconciled-page_size (some s) f h = h.2

empty_filter-IsReconciled : (o : Option Snapshot) → IsReconciled o empty_filter
empty_filter-IsReconciled none = (refl, refl, refl)
empty_filter-IsReconciled (some s) = (refl, refl, refl)

move-Shows :
    (m : NativeCatalogBrowserModel) (search : Text) (i : ℕ)
    → Shows m
    → Shows
        (run_query (record m { filter = record (m.filter) { search = search; page_index = i } }))
move-Shows m search i h =
    run_query-Shows m.snapshot _ m.page (move-IsReconciled m.snapshot m.filter search i h.0)

-- Every use of the browser leaves a source and a section chosen only if the browser offers them, and
-- shows the page that the filter finds, under the index that the filter has.
pub use_catalog-Shows :
    (u : Use) (m : NativeCatalogBrowserModel) → Shows m → Shows (use_catalog u m)
unfolding use_catalog
use_catalog-Shows (refreshes next) m h = elim (Bool-cases (eq_snapshot next m.snapshot)) [
  | inl e ↦ rw e h
  | inr e ↦ rw e (run_query-Shows next empty_filter m.page (empty_filter-IsReconciled next))
]
use_catalog-Shows (searches value) m h = move-Shows m value 0 h
use_catalog-Shows (chooses_source value) m h =
    set-Shows m.snapshot (record (m.filter) { source_id = value; page_index = 0 }) m.page
      (IsReconciled-page_size m.snapshot m.filter h.0)
use_catalog-Shows (chooses_section value) m h =
    set-Shows m.snapshot (record (m.filter) { section = value; page_index = 0 }) m.page
      (IsReconciled-page_size m.snapshot m.filter h.0)
use_catalog-Shows (chooses_area value) m h =
    set-Shows m.snapshot (record (m.filter) { area = value; page_index = 0 }) m.page
      (IsReconciled-page_size m.snapshot m.filter h.0)
use_catalog-Shows turns_back m h = elim (Bool-cases (m.filter.page_index == 0)) [
  | inl e ↦ rw e h
  | inr e ↦ rw e (move-Shows m m.filter.search (m.filter.page_index - 1) h)
]
use_catalog-Shows turns_forward m h =
    elim (Bool-cases
      (m.page.page_count == 0 || leb m.page.page_count (u64 (m.filter.page_index + 1)))) [
        | inl e ↦ rw e h
        | inr e ↦ rw e (move-Shows m m.filter.search (u64 (m.filter.page_index + 1)) h)
      ]
use_catalog-Shows (turns_to n) m h = move-Shows m m.filter.search (if n == 0 then 0 else n - 1) h

unfoldable pub use_all : List Use → NativeCatalogBrowserModel → NativeCatalogBrowserModel
use_all [] m = m
use_all (u ∷ us) m = use_all us (use_catalog u m)

-- After any use of a browser in which this already held, the page is what the snapshot's catalog
-- answers to the filter, the filter names that page, and its source and section are none or are
-- offered by the contextual facets (and all are empty without a snapshot).
pub use_all-Shows : (us : List Use) (m : NativeCatalogBrowserModel) → Shows m → Shows (use_all us m)
unfolding use_all
use_all-Shows [] m h = h
use_all-Shows (u ∷ us) m h = use_all-Shows us (use_catalog u m) (use_catalog-Shows u m h)

pub new_catalog-Shows : Shows new_catalog
new_catalog-Shows = ((refl, refl, refl), refl)

pub set_area-area :
    (value : Text) (m : NativeCatalogBrowserModel) → (set_area value m).filter.area ≡ value
unfolding set_area
set_area-area value m = ground arith
