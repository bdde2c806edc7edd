-- ===== src/Sources/Scanner.antt =====
-- src/repository/TattooSourceScanner.{h,cpp}. The file system and the conversions of Windows are parameters.
-- A path is its wide string.
use slavetat_ui.Base.{ℕ, Bool, ◌&&◌, if◌then◌else◌, Text, codes, lt_text, List, [], ◌∷◌, ◌++◌}
use slavetat_ui.Sources.Parser.{TattooSourceFile}

-- The value of a `std::error_code`.
abbrev pub ErrorCode : Type 0
ErrorCode = ℕ

-- `std::expected<A, std::error_code>`.
pub data Scanned {ℓ} (A : Type ℓ) : Type ℓ where
  yields : A → Scanned A
  fails : ErrorCode → Scanned A

unfoldable pub then_scanned {ℓ κ} :
    {A : Type ℓ} {B : Type κ} → Scanned A → (A → Scanned B) → Scanned B
then_scanned (yields a) f = f a
then_scanned (fails code) f = fails code

-- What a directory iterator gives: its end, an error (of its construction or its increment), or an entry with
-- its path and its answer to `is_regular_file`, and then what the increment gives.
pub data Listing : Type 0 where
  ended : Listing
  broken : ErrorCode → Listing
  entry : Text → Scanned Bool → Listing → Listing

-- What the scanner uses of `std::filesystem`, of Windows and of `std::ranges::sort`. A conversion gives what it
-- writes to its buffer, or the last error; `wide_char_size` is the first call of `WideCharToMultiByte`, which
-- gives the size.
pub record ScanLibrary : Type 0 where
  pub directory_iterator : Text → Listing
  pub extension : Text → Text
  pub filename : Text → Text
  pub stem : Text → Text
  pub equal_ignoring_case : Text → Text → Bool
  pub lc_map_string : Text → Scanned Text
  pub wide_char_size : Text → Scanned ℕ
  pub wide_char_to_multi_byte : Text → ℕ → Scanned Text
  pub sort :
      (TattooSourceFile → TattooSourceFile → Bool) → List TattooSourceFile → List TattooSourceFile

abbrev pub tattoo_source_id_prefix : Text
tattoo_source_id_prefix = codes "textures/actors/character/slavetats/"

-- The comparison of `std::ranges::sort` by `sourceId`.
abbrev pub lt_source_id : TattooSourceFile → TattooSourceFile → Bool
lt_source_id a b = lt_text a.source_id b.source_id

module _ (library : ScanLibrary) where
  unfoldable pub lowercase_invariant : Text → Scanned Text
  lowercase_invariant value = library.lc_map_string value

  unfoldable pub to_utf8 : Text → Scanned Text
  to_utf8 value =
      then_scanned (library.wide_char_size value) λ size. library.wide_char_to_multi_byte value size

  abbrev pub is_json : Text → Bool
  is_json path = library.equal_ignoring_case (library.extension path) (codes ".json")

  -- The body of the loop for a JSON file.
  unfoldable pub source_file_of : Text → Scanned TattooSourceFile
  unfolding lowercase_invariant to_utf8
  source_file_of path =
      then_scanned (lowercase_invariant (library.filename path)) λ lowered_filename.
        then_scanned (to_utf8 (library.filename path)) λ source_file.
          then_scanned (to_utf8 lowered_filename) λ normalized_filename.
            then_scanned (to_utf8 (library.stem path)) λ pack_name. yields (record {
              source_id = tattoo_source_id_prefix ++ normalized_filename;
              source_file = source_file;
              pack_name = pack_name;
              effective_path = path;
            })

  -- One round of the loop, up to the increment.
  unfoldable pub scan_entry :
      Text → Scanned Bool → List TattooSourceFile → Scanned (List TattooSourceFile)
  unfolding source_file_of
  scan_entry path regular sources = then_scanned regular λ regular_file.
      if regular_file && is_json path
      then then_scanned (source_file_of path) (λ source. yields (sources ++ (source ∷ [])))
      else yields sources

  unfoldable pub scan_loop : Listing → List TattooSourceFile → Scanned (List TattooSourceFile)
  unfolding scan_entry
  scan_loop ended sources = yields sources
  scan_loop (broken code) sources = fails code
  scan_loop (entry path regular next) sources =
      then_scanned (scan_entry path regular sources) (λ sources'. scan_loop next sources')

  unfoldable pub scan_tattoo_sources : Text → Scanned (List TattooSourceFile)
  unfolding scan_loop
  scan_tattoo_sources directory =
      then_scanned (scan_loop (library.directory_iterator directory) [])
        λ sources. yields (library.sort lt_source_id sources)
