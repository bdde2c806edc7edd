-- ===== src/Catalog/Loader.antt =====
-- src/repository/TattooCatalogLoader.{h,cpp}: the files of a directory, parsed into one catalog. The content of
-- a file is a parameter, by its path.
use slavetat_ui.Base.{ℕ, Text, List, [], ◌∷◌, ◌++◌, length, Option}
use slavetat_ui.Repository.Models.{TattooDefinition, TattooRepository}
use slavetat_ui.Repository.Query.{new_repository}
use slavetat_ui.Sources.Json.{JsonLibrary, Content}
use slavetat_ui.Sources.Parser.{
  TattooSourceFile, TattooParseIssue, TattooSourceParseReport, parse_tattoo_source,
}
use slavetat_ui.Sources.Scanner.{ScanLibrary, Scanned, then_scanned, yields, scan_tattoo_sources}

pub record TattooCatalogIssue : Type 0 where
  pub source_id : Text
  pub source_file : Text
  pub entry_index : Option ℕ
  pub message : Text

pub record TattooCatalog : Type 0 where
  pub repository : TattooRepository
  pub source_count : ℕ
  pub issues : List TattooCatalogIssue

abbrev pub catalog_issue : TattooSourceFile → TattooParseIssue → TattooCatalogIssue
catalog_issue source issue = record {
  source_id = source.source_id;
  source_file = source.source_file;
  entry_index = issue.entry_index;
  message = issue.message;
}

-- The loop over the issues of a report.
unfoldable pub push_issues :
    TattooSourceFile → List TattooParseIssue → List TattooCatalogIssue → List TattooCatalogIssue
push_issues source [] issues = issues
push_issues source (issue ∷ rest) issues =
    push_issues source rest (issues ++ (catalog_issue source issue ∷ []))

module _ {J : Type 0} (json : JsonLibrary J) (content : Text → Content J) where
  abbrev pub report_of : TattooSourceFile → TattooSourceParseReport
  report_of source = parse_tattoo_source json source (content source.effective_path)

  unfoldable pub load_loop :
      List TattooSourceFile
      → List TattooDefinition × List TattooCatalogIssue
      → List TattooDefinition × List TattooCatalogIssue
  unfolding push_issues
  load_loop [] loaded = loaded
  load_loop (source ∷ sources) (definitions, issues) =
      let report = report_of source in
      load_loop sources (definitions ++ report.definitions, push_issues source report.issues issues)

  unfoldable pub load_tattoo_catalog : ScanLibrary → Text → Scanned TattooCatalog
  unfolding load_loop
  load_tattoo_catalog library directory =
      then_scanned (scan_tattoo_sources library directory) λ sources.
        let loaded = load_loop sources ([], []) in
        yields (record {
          repository = new_repository loaded.0;
          source_count = length sources;
          issues = loaded.1;
        })
