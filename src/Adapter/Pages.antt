-- ===== src/Adapter/Pages.antt =====
-- Every slot is drawn on one page, the page that the workflow says.
use slavetat_ui.Base.{
  ℕ, ◌+◌, ◌*◌, ◌/◌, ◌^◌, ◌≤◌, ◌<◌, ◌≡◌, refl, arith, min, count_pages, count_pages-le,
  count_pages-begin, count_pages-enough, List, length, some,
}
use native.Mathlib.Nat.{div-add-mod}
use slavetat_ui.Core.Models.{TattooSlots}
use slavetat_ui.Catalog.{NativeCatalogBrowserModel}
use slavetat_ui.Workflow.State.{new_workflow, slots, slot_page_index, slot_page_count}
use slavetat_ui.Workflow.Commands.{Command, run}
use slavetat_ui.Workflow.Pages.{run-new-IsOnPage}
use slavetat_ui.Adapter.{SlotPageRange, calculate_slot_page}

-- A page that there is begins where its slots begin, and ends with them or with the last.
abbrev page_at : ℕ → ℕ → ℕ → SlotPageRange
page_at n i size = record {
  page_index = i;
  page_count = count_pages n size;
  begin = i * size;
  end = min n (i * size + size);
}

calculate_slot_page_lem :
    (n i size : ℕ)
    → 0 < size
    → n + size < 2 ^ 64
    → i < count_pages n size
    → calculate_slot_page n i size ≡ page_at n i size
unfolding calculate_slot_page
calculate_slot_page_lem n i size h b k =
    let starts = count_pages-begin n size i h k in let few = count_pages-le n size h in ground arith

div-count_pages : (n i size : ℕ) → 0 < size → i < n → i / size < count_pages n size
div-count_pages n i size h k =
    grind (arith, div-add-mod n size, div-add-mod i size, count_pages-enough n size h)

-- The page whose number is that of a slot divided by the size of a page has that slot, for any
-- count of slots and any page size that is not 0, provided that their sum is below 2^64.
pub drawn_on_page :
    (n i size : ℕ)
    → 0 < size
    → n + size < 2 ^ 64
    → i < n
    → let page = calculate_slot_page n (i / size) size in
      (page.page_index ≡ i / size) × (page.begin ≤ i) × (i < page.end)
drawn_on_page n i size h b k =
    rw (calculate_slot_page_lem n (i / size) size h b (div-count_pages n i size h k))
      (refl, omega (arith, div-add-mod i size), omega (arith, div-add-mod i size))

-- After any history, the window draws the page that the workflow has, of as many as the workflow
-- counts, and at least one and at most six slots on it, all of them slots that there are, provided
-- that there are some, and fewer than 2^64 - 6 of them.
pub drawn_page_agrees :
    (catalog : NativeCatalogBrowserModel) (cs : List Command) (t : TattooSlots)
    → slots (run cs (new_workflow catalog)) ≡ some t
    → 0 < length t.slots
    → length t.slots + 6 < 2 ^ 64
    → let s = run cs (new_workflow catalog) in
      let page = calculate_slot_page (length t.slots) (slot_page_index s) 6 in
      (page.page_index ≡ slot_page_index s)
      × (page.page_count ≡ slot_page_count s)
      × (page.begin < page.end)
      × (page.end ≤ length t.slots)
      × (page.end ≤ page.begin + 6)
unfolding slot_page_count
drawn_page_agrees catalog cs t e h b =
    let s = run cs (new_workflow catalog) in
    let i = slot_page_index s in
    let n = length t.slots in
    let on = rw e at (run-new-IsOnPage catalog cs) in
    let some_page : 0 < count_pages n 6 = grind (arith, count_pages-enough n 6) in
    let there : i < count_pages n 6 = omega (arith, on) in
    let starts = count_pages-begin n 6 i (omega arith) there in
    rw (calculate_slot_page_lem n i 6 (omega arith) b there, e)
      (refl, refl, omega arith, omega arith, omega arith)
