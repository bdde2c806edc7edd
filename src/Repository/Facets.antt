-- ===== src/Repository/Facets.antt =====
-- The facets of src/repository/TattooRepository.cpp: which sources, sections and areas the user
-- can filter by, given the filter that is set.
use slavetat_ui.Base.{
  Bool, false, ◌||◌, if◌then◌else◌, Text, eq_text, is_empty, any_of, keep_if, List, [], ◌∷◌, map,
  Option, none, some,
}
use slavetat_ui.Repository.Models.{
  TattooFilter, TattooSourceOption, TattooFacets, IndexedDefinition, TattooRepository,
}
use slavetat_ui.Repository.Sort.{fold_ascii, lt_keys, sort}

-- A folded key with the text to show.
abbrev pub Candidate : Type 0
Candidate = Text × Text

abbrev pub lt_candidate : Candidate → Candidate → Bool
lt_candidate (a, b) (c, d) = lt_keys (a ∷ b ∷ []) (c ∷ d ∷ []) false

abbrev pub is_previous : Option Text → Text → Bool
is_previous none folded = false
is_previous (some previous) folded = eq_text folded previous

-- The loop over the sorted candidates: the first of each run of equal keys.
unfoldable pub distinct_values : Option Text → List Candidate → List Candidate
distinct_values previous [] = []
distinct_values previous ((folded, display) ∷ rest) =
    let later = distinct_values (some folded) rest in
    let same = distinct_values previous rest in
    if is_previous previous folded then same else (folded, display) ∷ later

unfoldable pub build_facet_values : List Candidate → List Text
unfolding distinct_values sort
build_facet_values candidates = map (λ c. c.1) (distinct_values none (sort lt_candidate candidates))

-- The loop that fills `sources`, with the set of the keys seen.
unfoldable pub collect_sources : List Text → List IndexedDefinition → List TattooSourceOption
collect_sources seen [] = []
collect_sources seen (e ∷ es) =
    let again = collect_sources seen es in
    let first = collect_sources (e.folded_source_id ∷ seen) es in
    if any_of (eq_text e.folded_source_id) seen
    then again
    else record { source_id = e.definition.source_id; pack_name = e.definition.pack_name } ∷ first

abbrev pub source_keys : TattooSourceOption → List Text
source_keys s = fold_ascii s.pack_name ∷ fold_ascii s.source_id ∷ s.source_id ∷ []

abbrev pub lt_source : TattooSourceOption → TattooSourceOption → Bool
lt_source a b = lt_keys (source_keys a) (source_keys b) false

abbrev pub sorted_sources : List IndexedDefinition → List TattooSourceOption
sorted_sources es = sort lt_source (collect_sources [] es)

abbrev pub section_candidate : IndexedDefinition → Candidate
section_candidate e = (e.folded_section, e.definition.section)

abbrev pub area_candidate : IndexedDefinition → Candidate
area_candidate e = (e.folded_area, e.definition.area)

-- An empty key filters nothing.
abbrev pub passes_key : Text → Text → Bool
passes_key wanted key = is_empty wanted || eq_text key wanted

unfoldable pub all_facets : List IndexedDefinition → TattooFacets
unfolding build_facet_values collect_sources sort
all_facets es = record {
  sources = sorted_sources es;
  sections = build_facet_values (map section_candidate es);
  areas = build_facet_values (map area_candidate es);
}

-- One loop of the source fills both lists; here each has its own.
unfoldable pub contextual_facets : TattooRepository → TattooFilter → TattooFacets
unfolding build_facet_values collect_sources sort fold_ascii
contextual_facets r f =
    let in_area = keep_if (λ e. passes_key (fold_ascii f.area) e.folded_area) r.entries in
    let in_source = keep_if (λ e. passes_key (fold_ascii f.source_id) e.folded_source_id) in_area in
    record {
      sources = sorted_sources in_area;
      sections = build_facet_values (map section_candidate in_source);
      areas = r.facets.areas;
    }
