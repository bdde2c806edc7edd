-- ===== src/Repository/Query.antt =====
-- `TattooRepository`'s constructor and `query` (src/repository/TattooRepository.cpp).
use slavetat_ui.Base.{
  ℕ, ◌-◌, ◌*◌, min, Bool, true, false, ◌&&◌, ◌||◌, ltb, ◌==◌, if◌then◌else◌, u64, Text, is_empty,
  keep_if, length, count_pages, slice_from, List, [], ◌∷◌, ◌++◌, map,
}
use slavetat_ui.Repository.Models.{
  TattooDefinition, TattooFilter, TattooPage, IndexedDefinition, TattooRepository,
  default_tattoo_page_size,
}
use slavetat_ui.Repository.Sort.{fold_ascii, lt_keys, sort}
use slavetat_ui.Repository.Facets.{passes_key, all_facets}

-- The loop of `buildFoldedSearch`: a line for each field, but no separator while nothing is there.
join_search : Text → List Text → Text
join_search search [] = search
join_search search (field ∷ rest) =
    join_search ((if is_empty search then search else search ++ b'\n' ∷ []) ++ fold_ascii field)
      rest

unfoldable pub build_folded_search : TattooDefinition → Text
unfolding join_search fold_ascii
build_folded_search d =
    join_search [] (d.name ∷ d.pack_name ∷ d.source_file ∷ d.section ∷ d.area ∷ d.texture_path ∷ [])

unfoldable pub index_definition : TattooDefinition → IndexedDefinition
unfolding build_folded_search fold_ascii
index_definition d = record {
  definition = d;
  folded_search = build_folded_search d;
  folded_source_id = fold_ascii d.source_id;
  folded_section = fold_ascii d.section;
  folded_area = fold_ascii d.area;
  folded_pack_name = fold_ascii d.pack_name;
  folded_name = fold_ascii d.name;
  folded_texture_path = fold_ascii d.texture_path;
}

abbrev pub entry_keys : IndexedDefinition → List Text
entry_keys e =
    e.folded_pack_name ∷ e.folded_section ∷ e.folded_area ∷ e.folded_name ∷ e.folded_texture_path
    ∷ e.definition.source_id ∷ []

abbrev pub lt_entry : IndexedDefinition → IndexedDefinition → Bool
lt_entry a b =
    lt_keys (entry_keys a) (entry_keys b) (ltb a.definition.source_index b.definition.source_index)

unfoldable pub new_repository : List TattooDefinition → TattooRepository
unfolding index_definition sort all_facets
new_repository definitions =
    let sorted = sort lt_entry (map index_definition definitions) in
    record { entries = sorted; facets = all_facets sorted }

abbrev pub starts_with : Text → Text → Bool
starts_with [] hay = true
starts_with (x ∷ xs) [] = false
starts_with (x ∷ xs) (y ∷ ys) = if x == y then starts_with xs ys else false

-- `hay.find(needle) != npos`.
abbrev pub contains_text : Text → Text → Bool
contains_text needle [] = starts_with needle []
contains_text needle (y ∷ ys) =
    let later = contains_text needle ys in if starts_with needle (y ∷ ys) then true else later

abbrev pub passes_search : Text → Text → Bool
passes_search wanted search = is_empty wanted || contains_text wanted search

-- The filter of `query`, as the loop's `continue` has it.
unfoldable pub passes_filter : TattooFilter → IndexedDefinition → Bool
unfolding fold_ascii
passes_filter f e =
    passes_search (fold_ascii f.search) e.folded_search
    && passes_key (fold_ascii f.source_id) e.folded_source_id
    && passes_key (fold_ascii f.section) e.folded_section
    && passes_key (fold_ascii f.area) e.folded_area

abbrev pub query_matches : TattooRepository → TattooFilter → List IndexedDefinition
query_matches r f = keep_if (passes_filter f) r.entries

abbrev pub effective_page_size : ℕ → ℕ
effective_page_size n = if n == 0 then default_tattoo_page_size else n

abbrev pub clamp_page : ℕ → ℕ → ℕ
clamp_page count index = if count == 0 then 0 else min index (count - 1)

unfoldable pub query : TattooRepository → TattooFilter → TattooPage
unfolding passes_filter
query r f =
    let matches = query_matches r f in
    let size = effective_page_size f.page_size in
    let count = u64 (count_pages (length matches) size) in
    let index = clamp_page count f.page_index in
    record {
      entries = map (λ e. e.definition) (slice_from (index * size) size matches);
      total_entries = length r.entries;
      matched_entries = length matches;
      page_index = index;
      page_size = size;
      page_count = count;
    }
