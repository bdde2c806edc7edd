-- ===== src/Catalog/Loaded.antt =====
-- What a catalog that was loaded holds.
use mathlib.Core.List.{Perm, append_assoc, append-nil}
use slavetat_ui.Base.{◌≡◌, refl, sym, ◌∙◌, ap, Text, List, [], ◌∷◌, ◌++◌, map, length}
use slavetat_ui.Repository.Models.{TattooDefinition}
use slavetat_ui.Repository.Query.{lt_entry, new_repository}
use slavetat_ui.Repository.Order.{Ordered, new_repository-Ordered}
use slavetat_ui.Sources.Json.{JsonLibrary, Content}
use slavetat_ui.Sources.Parser.{TattooSourceFile, TattooParseIssue}
use slavetat_ui.Sources.Scanner.{
  ErrorCode, ScanLibrary, Scanned, then_scanned, yields, fails, scan_tattoo_sources,
}
use slavetat_ui.Catalog.Loader.{
  TattooCatalog, TattooCatalogIssue, catalog_issue, push_issues, report_of, load_loop,
  load_tattoo_catalog,
}

abbrev pub concat_map {ℓ κ} : {A : Type ℓ} {B : Type κ} → (A → List B) → List A → List B
concat_map f [] = []
concat_map f (x ∷ xs) = f x ++ concat_map f xs

push_issues_lem :
    (source : TattooSourceFile) (rest : List TattooParseIssue) (issues : List TattooCatalogIssue)
    → push_issues source rest issues ≡ issues ++ map (catalog_issue source) rest
unfolding push_issues
push_issues_lem source [] issues = sym (append-nil issues)
push_issues_lem source (issue ∷ rest) issues =
    push_issues_lem source rest (issues ++ (catalog_issue source issue ∷ []))
    ∙ append_assoc issues (catalog_issue source issue ∷ []) (map (catalog_issue source) rest)

module _ {J : Type 0} (json : JsonLibrary J) (content : Text → Content J) where
  abbrev pub definitions_of : TattooSourceFile → List TattooDefinition
  definitions_of source = (report_of json content source).definitions

  abbrev pub issues_of : TattooSourceFile → List TattooCatalogIssue
  issues_of source = map (catalog_issue source) (report_of json content source).issues

  load_loop_lem :
      (sources : List TattooSourceFile) (definitions : List TattooDefinition)
      (issues : List TattooCatalogIssue)
      → ((load_loop json content sources (definitions, issues)).0
          ≡ definitions ++ concat_map definitions_of sources)
        × ((load_loop json content sources (definitions, issues)).1
            ≡ issues ++ concat_map issues_of sources)
  unfolding load_loop
  load_loop_lem [] definitions issues = (sym (append-nil definitions), sym (append-nil issues))
  load_loop_lem (source ∷ sources) definitions issues =
      let issues' = push_issues source (report_of json content source).issues issues in
      let rest = load_loop_lem sources (definitions ++ definitions_of source) issues' in
      (
        rest.0 ∙ append_assoc definitions _ _,
        rest.1
            ∙ ap (λ i. i ++ concat_map issues_of sources)
                (push_issues_lem source (report_of json content source).issues issues)
            ∙ append_assoc issues (issues_of source) _,
      )

  -- The catalog has what the files of the scan hold, and no more.
  pub record IsCatalog (sources : List TattooSourceFile) (catalog : TattooCatalog) : Type 0 where
    pub holds :
        Perm
          (map (λ e. e.definition) catalog.repository.entries)
          (concat_map definitions_of sources)
    pub orders : Ordered lt_entry catalog.repository.entries
    pub counts : catalog.source_count ≡ length sources
    pub reports : catalog.issues ≡ concat_map issues_of sources

  -- What a load gives, by what its scan gives.
  pub data IsLoad : Scanned (List TattooSourceFile) → Scanned TattooCatalog → Type 0 where
    loads :
        (sources : List TattooSourceFile) (catalog : TattooCatalog)
        → IsCatalog sources catalog
        → IsLoad (yields sources) (yields catalog)
    stops : (code : ErrorCode) → IsLoad (fails code) (fails code)

-- A load gives a catalog exactly if the scan succeeds, and else the error of the scan; the catalog
-- has, each as often as they have it, the definitions that the reports on the files have, in the
-- order of the repository, the number of the files, and the issues of the reports in the order of
-- the files, each with the id and the name of its file.
pub load_tattoo_catalog-IsLoad :
    {J : Type 0} (json : JsonLibrary J) (content : Text → Content J) (library : ScanLibrary)
    (directory : Text)
    → IsLoad json content
        (scan_tattoo_sources library directory)
        (load_tattoo_catalog json content library directory)
unfolding load_tattoo_catalog then_scanned
load_tattoo_catalog-IsLoad json content library directory =
    go (scan_tattoo_sources library directory)
  where
    go :
        (r : Scanned (List TattooSourceFile))
        → IsLoad json content r (
            then_scanned r λ sources.
              let loaded = load_loop json content sources ([], []) in
              yields (record {
                repository = new_repository loaded.0;
                source_count = length sources;
                issues = loaded.1;
              }))
    go (fails code) = stops code
    go (yields sources) =
        let loaded = load_loop_lem json content sources [] [] in
        let ordered = new_repository-Ordered (load_loop json content sources ([], [])).0 in
        loads sources _ (record {
          holds = rw (sym loaded.0) ordered.0;
          orders = ordered.1;
          counts = refl;
          reports = loaded.1;
        })
