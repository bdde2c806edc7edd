-- ===== src/Adapter/PageShown.antt =====
-- What a number that the user commits shows.
use slavetat_ui.Base.{
  ℕ, zero, suc, ◌+◌, ◌-◌, ◌^◌, ◌≤◌, ◌<◌, ◌≡◌, ◌⊎◌, inl, inr, refl, sym, ap, ◌∙◌, arith, dec_lt, ℤ,
  pos, negsuc, ◌≤ℤ◌, ◌==◌, true, false, if◌then◌else◌, some,
}
use slavetat_ui.Repository.Models.{TattooFilter, TattooRepository}
use slavetat_ui.Repository.Query.{query, clamp_page}
use slavetat_ui.Catalog.{NativeCatalogBrowserModel, Snapshot, run_query, set_page_number}
use slavetat_ui.Catalog.Laws.{query-page_index}
use slavetat_ui.Adapter.PageInput.{
  CatalogBrowserPageInputState, PageControls, committed_number, synchronize_input, requested_page,
  finish_frame, page_field,
}

-- Of the pages from 1 up to `count`, `page` is the nearest to a number.
abbrev pub IsNearest : ℕ → ℤ → ℕ → Type 0
IsNearest count number page =
    ((1 ≤ page) × (page ≤ count) × (number ≡ pos page))
    ⊎ (((number ≤ℤ pos 0) × (page ≡ 1)) ⊎ ((pos (count + 1) ≤ℤ number) × (page ≡ count)))

-- The page that is shown for a number of the user's, and the field of the next frame: it is the filter's
-- page, of as many as before, the field has its number, and is not being edited.
pub record ShowsNearest (number : ℤ) (shown : Snapshot) (before after : NativeCatalogBrowserModel)
    (field : CatalogBrowserPageInputState) : Type 0 where
  pub found :
      after.page
      ≡ query shown.repository (record (before.filter) { page_index = after.page.page_index })
  pub count : after.page.page_count ≡ before.page.page_count
  pub nearest : IsNearest before.page.page_count number (after.page.page_index + 1)
  pub number_shown : field.pending_page_number ≡ pos (after.page.page_index + 1)
  pub settled : field.editing ≡ false

set_page_number-page :
    (n : ℕ) (m : NativeCatalogBrowserModel) (shown : Snapshot)
    → m.snapshot ≡ some shown
    → (set_page_number n m).page ≡ query shown.repository (record (m.filter) { page_index = n - 1 })
unfolding set_page_number run_query
set_page_number-page n m shown h =
    let same : (if n == 0 then 0 else n - 1) ≡ n - 1 = ground arith in rw (h, same) refl

query-clamped :
    (r : TattooRepository) (f : TattooFilter) (n : ℕ)
    → let p = query r (record f { page_index = n }) in
      (p.page_count ≡ (query r f).page_count)
      × (p.page_index ≡ clamp_page (query r f).page_count n)
      × (p ≡ query r (record f { page_index = p.page_index }))
unfolding query
query-clamped r f n = (refl, refl, sym (query-page_index r (record f { page_index = n })))

clamp_page-IsNearest :
    (count n : ℕ) → 0 < count → IsNearest count (pos n) (clamp_page count (n - 1) + 1)
clamp_page-IsNearest count zero h = inr (inl (ground arith, ground arith))
clamp_page-IsNearest count (suc n) h = elim (dec_lt n count) [
  | yes l ↦
      let same : clamp_page count (suc n - 1) + 1 ≡ suc n = ground arith in
      rw same (inl (omega arith, omega arith, refl))
  | no l ↦ inr (inr (ground arith, ground arith))
]

requested_page-IsNearest :
    (count : ℕ) (number : ℤ)
    → 0 < count
    → IsNearest count number (clamp_page count (requested_page number - 1) + 1)
requested_page-IsNearest count (pos n) h = clamp_page-IsNearest count n h
requested_page-IsNearest count (negsuc n) h = inr (inl (ground arith, ground arith))

committed_number_lem :
    (page_index count : ℕ)
    → page_index < count
    → count < 2 ^ 31
    → committed_number page_index count ≡ pos (page_index + 1)
committed_number_lem page_index count h k = ground arith

clamp_page-lt : (count n : ℕ) → 0 < count → clamp_page count n < count
clamp_page-lt count n h = ground arith

-- The field of a frame in which it is not edited.
synchronize_input-settled :
    (page_index count : ℕ) (s : CatalogBrowserPageInputState)
    → s.editing ≡ false
    → page_index < count
    → count < 2 ^ 31
    → let next = synchronize_input page_index count s in
      (next.pending_page_number ≡ pos (page_index + 1)) × (next.editing ≡ false)
unfolding synchronize_input
synchronize_input-settled page_index count s e h k =
    rw e (committed_number_lem page_index count h k, ground arith)

set_page_number-ShowsNearest :
    (number : ℤ) (s : CatalogBrowserPageInputState) (m : NativeCatalogBrowserModel)
    (shown : Snapshot)
    → m.snapshot ≡ some shown
    → m.page ≡ query shown.repository m.filter
    → 0 < m.page.page_count
    → m.page.page_count < 2 ^ 31
    → s.editing ≡ false
    → let m' = set_page_number (requested_page number) m in
      ShowsNearest number shown m m' (synchronize_input m'.page.page_index m'.page.page_count s)
set_page_number-ShowsNearest number s m shown h now some_pages few e =
    let m' = set_page_number (requested_page number) m in
    let page = set_page_number-page (requested_page number) m shown h in
    let clamped = query-clamped shown.repository m.filter (requested_page number - 1) in
    let count : m'.page.page_count ≡ m.page.page_count =
      ap (λ p. p.page_count) page ∙ clamped.0 ∙ sym (ap (λ p. p.page_count) now) in
    let index : m'.page.page_index ≡ clamp_page m.page.page_count (requested_page number - 1) =
      ap (λ p. p.page_index) page
      ∙ clamped.1
      ∙ sym (ap (λ p. clamp_page p.page_count (requested_page number - 1)) now) in
    let below : m'.page.page_index < m'.page.page_count =
      rw (count, index) (clamp_page-lt _ (requested_page number - 1) some_pages) in
    let field = synchronize_input-settled _ _ s e below (rw count few) in
    record {
      found =
          page
          ∙ clamped.2
          ∙ ap (λ p. query shown.repository (record (m.filter) { page_index = p.page_index }))
              (sym page);
      count = count;
      nearest = rw index (requested_page-IsNearest m.page.page_count number some_pages);
      number_shown = field.0;
      settled = field.1;
    }

page_field-commits :
    (f : PageControls) (number : ℤ) (s : CatalogBrowserPageInputState)
    (m : NativeCatalogBrowserModel)
    → (m.page.page_count == 0) ≡ false
    → f.typed ≡ some number
    → f.committed_on_deactivate ≡ true
    → let (s', m') = page_field f (s, m) in
      (m' ≡ set_page_number (requested_page number) m) × (s'.editing ≡ false)
unfolding page_field synchronize_input finish_frame
page_field-commits f number s m pages typed committed = rw (typed, committed, pages) (refl, refl)

-- When the user commits a number in the field of a catalog that has pages, but fewer than 2^31 of
-- them, and whose page is what its filter finds: the browser then shows the page of its filter with
-- that number, counting from 1, if there is one, the first if the number is 0 or negative, and the
-- last if it is too large; there are as many pages as before; and at the next frame the field shows
-- the number of the page that is shown and is not being edited.
pub committed-shown :
    (f : PageControls) (number : ℤ) (s : CatalogBrowserPageInputState)
    (m : NativeCatalogBrowserModel) (shown : Snapshot)
    → m.snapshot ≡ some shown
    → m.page ≡ query shown.repository m.filter
    → 0 < m.page.page_count
    → m.page.page_count < 2 ^ 31
    → f.typed ≡ some number
    → f.committed_on_deactivate ≡ true
    → let (s', m') = page_field f (s, m) in
      ShowsNearest number shown m m' (synchronize_input m'.page.page_index m'.page.page_count s')
committed-shown f number s m shown h now some_pages few typed committed =
    let pages : (m.page.page_count == 0) ≡ false = ground arith in
    let (model, field) = page_field-commits f number s m pages typed committed in
    rw model (
      set_page_number-ShowsNearest number (page_field f (s, m)).0 m shown h now some_pages few
        field)
