-- ===== src/Tests/Scan.antt =====
-- The theorems of the scan of a directory, of the loader, and of the store with the browser.
use slavetat_ui.Base.{
  ◌≡◌, refl, ◌==◌, if◌then◌else◌, true, false, Text, codes, eq_text, length, List, [], ◌∷◌, map,
  some,
}
use slavetat_ui.Repository.Sort.{fold_ascii, sort}
use slavetat_ui.Repository.Order.{sort-perm, sort-Ordered, lt_text_asym}
use slavetat_ui.Sources.Json.{Content, unopened, parsed}
use slavetat_ui.Sources.Parser.{TattooSourceFile}
use slavetat_ui.Sources.Scanner.{
  then_scanned, Scanned, yields, fails, Listing, ended, broken, entry, ScanLibrary, lt_source_id,
  scan_tattoo_sources,
}
use slavetat_ui.Sources.Scanned.{SortsSources, IsScan, scan_tattoo_sources-IsScan}
use slavetat_ui.Catalog.{new_catalog, refresh}
use slavetat_ui.Catalog.Loader.{load_tattoo_catalog}
use slavetat_ui.Catalog.Loaded.{IsLoad, load_tattoo_catalog-IsLoad}
use slavetat_ui.Catalog.Store.{new_store, shared_repository, snapshot, refresh_store}
use slavetat_ui.Catalog.Shown.{IsShown, refresh_store-IsShown}
use slavetat_ui.Tests.Sources.{Document, documents, three}

abbrev from_dot : Text → Text
from_dot [] = []
from_dot (c ∷ cs) = let rest = from_dot cs in if c == 46 then c ∷ cs else rest

abbrev before_dot : Text → Text
before_dot [] = []
before_dot (c ∷ cs) = let rest = before_dot cs in if c == 46 then [] else c ∷ rest

-- Two packs, a text and a folder.
abbrev folder : Listing
folder = entry (codes "Zebra.JSON") (yields true) (
    entry (codes "notes.txt") (yields true)
      (entry (codes "Backup.json") (yields false) (entry (codes "Marks.json") (yields true) ended)))

abbrev library : ScanLibrary
library = record {
  directory_iterator = λ path. if eq_text path (codes "gone") then broken 3 else folder;
  extension = from_dot;
  filename = λ path. path;
  stem = before_dot;
  equal_ignoring_case = λ a b. eq_text (fold_ascii a) (fold_ascii b);
  lc_map_string = λ value. yields (fold_ascii value);
  wide_char_size = λ value. if length value == 0 then fails 87 else yields (length value);
  wide_char_to_multi_byte = λ value size. yields value;
  sort = sort;
}

abbrev library-SortsSources : SortsSources library
library-SortsSources = record {
  keeps = sort-perm lt_source_id;
  orders = λ xs. sort-Ordered lt_source_id xs (λ a b. lt_text_asym a.source_id b.source_id);
}

abbrev content : Text → Content Document
content path = if eq_text path (codes "Marks.json") then parsed (some three) else unopened

abbrev map_ids : Scanned (List TattooSourceFile) → List Text
map_ids (fails code) = []
map_ids (yields sources) = map (λ s. s.source_id) sources

two_ids :
    map_ids (scan_tattoo_sources library (codes "here"))
    ≡ codes "textures/actors/character/slavetats/marks.json"
      ∷ (codes "textures/actors/character/slavetats/zebra.json" ∷ [])
unfolding scan_tattoo_sources then_scanned sort fold_ascii
two_ids = refl

gone : scan_tattoo_sources library (codes "gone") ≡ fails 3
unfolding scan_tattoo_sources then_scanned
gone = refl

scan_tattoo_sources-IsScan_example :
    IsScan library folder (scan_tattoo_sources library (codes "here"))
scan_tattoo_sources-IsScan_example =
    scan_tattoo_sources-IsScan library (codes "here") library-SortsSources

load_tattoo_catalog-IsLoad_example :
    IsLoad documents content
      (scan_tattoo_sources library (codes "here"))
      (load_tattoo_catalog documents content library (codes "here"))
load_tattoo_catalog-IsLoad_example =
    load_tattoo_catalog-IsLoad documents content library (codes "here")

refresh_store-IsShown_example :
    IsShown documents content 7 new_store new_catalog
      (scan_tattoo_sources library (codes "here"))
      (refresh_store documents content library (codes "here") 7 new_store)
      (refresh
        (shared_repository
          (snapshot (refresh_store documents content library (codes "here") 7 new_store).1))
        new_catalog)
refresh_store-IsShown_example =
    refresh_store-IsShown documents content library (codes "here") 7 new_store new_catalog refl tt
