-- ===== src/Repository/Paging.antt =====
-- The pages of a query.
use mathlib.Core.List.{map-append}
use native.Mathlib.Nat.{mod-eq_of_lt}
use slavetat_ui.Base.{
  ℕ, zero, suc, ◌+◌, ◌-◌, ◌*◌, ◌^◌, ◌≤◌, ◌<◌, ◌≡◌, refl, arith, List, [], ◌∷◌, ◌++◌, map, length,
  ◌∙◌, sym, ap, min, take, drop, length-keep_if, length-take, concat_pages, concat_pages-congr,
  concat_chunks_all, count_pages, count_pages-le, count_pages-begin, slice_from, slice_from_lem,
  u64,
}
use slavetat_ui.Repository.Models.{
  TattooDefinition, TattooFilter, TattooRepository, IndexedDefinition,
}
use slavetat_ui.Repository.Query.{
  query, query_matches, effective_page_size, clamp_page, passes_filter,
}

abbrev definitions_of : List IndexedDefinition → List TattooDefinition
definitions_of = map (λ e. e.definition)

map-concat_pages {ℓ κ} :
    {A : Type ℓ} {B : Type κ} (f : A → B) (k : ℕ) (page : ℕ → List A)
    → map f (concat_pages k page) ≡ concat_pages k (λ i. map f (page i))
map-concat_pages f zero page = refl
map-concat_pages f (suc k) page =
    map-append f (concat_pages k page) (page k)
    ∙ ap (λ xs. xs ++ map f (page k)) (map-concat_pages f k page)

effective_page_size-pos : (n : ℕ) → 0 < effective_page_size n
effective_page_size-pos n = ground arith

u64-count_pages :
    (n size : ℕ) → 0 < size → n < 2 ^ 64 → u64 (count_pages n size) ≡ count_pages n size
u64-count_pages n size h b = mod-eq_of_lt (omega (arith, count_pages-le n size h))

pub clamp_page_idem : (count i : ℕ) → clamp_page count (clamp_page count i) ≡ clamp_page count i
clamp_page_idem count i = ground arith

clamp_page-le : (count i : ℕ) → clamp_page count i ≤ count - 1
clamp_page-le count i = ground arith

length-definitions_of : (xs : List IndexedDefinition) → length (definitions_of xs) ≡ length xs
length-definitions_of [] = refl
length-definitions_of (x ∷ xs) = ap suc (length-definitions_of xs)

length-slice :
    (begin size : ℕ) (xs : List IndexedDefinition)
    → length (definitions_of (slice_from begin size xs)) ≤ size
length-slice begin size xs = rw (length-definitions_of (slice_from begin size xs)) (
    omega (
      arith,
      length-take (u64 (u64 begin + min size (length xs - u64 begin)) - u64 begin)
          (drop (u64 begin) xs),
    ))

clamp_page-eq : (count i : ℕ) → i < count → clamp_page count i ≡ i
clamp_page-eq count i h = ground arith

-- A page that there is holds its slice of the matches.
query-entries :
    (r : TattooRepository) (f : TattooFilter) (i : ℕ)
    → length (query_matches r f) < 2 ^ 64
    → i < count_pages (length (query_matches r f)) (effective_page_size f.page_size)
    → (query r (record f { page_index = i })).entries
      ≡ definitions_of (
          take
            (effective_page_size f.page_size)
            (drop (i * effective_page_size f.page_size) (query_matches r f)))
unfolding query
query-entries r f i b h =
    let size = effective_page_size f.page_size in
    let pos = effective_page_size-pos f.page_size in
    let n = length (query_matches r f) in
    rw (u64-count_pages n size pos b, clamp_page-eq (count_pages n size) i h)
      (ap definitions_of (
        slice_from_lem (i * size) size (query_matches r f)
          (omega (arith, count_pages-begin n size i pos h)) b))

query-page_count :
    (r : TattooRepository) (f : TattooFilter)
    → length (query_matches r f) < 2 ^ 64
    → (query r f).page_count
      ≡ count_pages (length (query_matches r f)) (effective_page_size f.page_size)
unfolding query
query-page_count r f b = u64-count_pages _ _ (effective_page_size-pos f.page_size) b

-- The pages of a query, one after the other, are the definitions that match, each once and in the
-- catalog's order, whatever the page size (0 stands for the default), provided that fewer than 2^64
-- match.
pub query-pages :
    (r : TattooRepository) (f : TattooFilter)
    → length (query_matches r f) < 2 ^ 64
    → concat_pages (query r f).page_count (λ i. (query r (record f { page_index = i })).entries)
      ≡ map (λ e. e.definition) (query_matches r f)
query-pages r f b =
    let size = effective_page_size f.page_size in
    let pos = effective_page_size-pos f.page_size in
    let n = length (query_matches r f) in
    rw (query-page_count r f b) (
      concat_pages-congr (count_pages n size) _ _ (λ i h. query-entries r f i b h)
      ∙ sym (
          map-concat_pages (λ e. e.definition) (count_pages n size)
            (λ i. take size (drop (i * size) (query_matches r f))))
      ∙ ap definitions_of (concat_chunks_all size (query_matches r f) pos))

-- The page that a query returns is one that there is, or the first of none; it is no longer than
-- the page size, which is never 0; and no more match than there are.
query_bounds :
    (r : TattooRepository) (f : TattooFilter)
    → let page = query r f in
      (page.page_index ≤ page.page_count - 1)
      × (0 < page.page_size)
      × (length page.entries ≤ page.page_size)
      × (page.matched_entries ≤ page.total_entries)
unfolding query
query_bounds r f =
    let matches = query_matches r f in
    let size = effective_page_size f.page_size in
    let count = u64 (count_pages (length matches) size) in
    (
      clamp_page-le count f.page_index,
      effective_page_size-pos f.page_size,
      length-slice (clamp_page count f.page_index * size) size matches,
      length-keep_if (passes_filter f) r.entries,
    )
