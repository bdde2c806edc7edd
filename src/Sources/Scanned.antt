-- ===== src/Sources/Scanned.antt =====
-- The scan of a directory against what its listing says.
use mathlib.Core.List.{Perm, append_assoc, append-nil}
use slavetat_ui.Base.{
  ◌≡◌, refl, sym, ◌∙◌, Bool, true, false, ◌&&◌, if◌then◌else◌, Bool-cases, inl, inr, ◌⊎◌, Text,
  List, [], ◌∷◌, ◌++◌, map, All,
}
use slavetat_ui.Repository.Order.{Ordered}
use slavetat_ui.Sources.Parser.{TattooSourceFile}
use slavetat_ui.Sources.Scanner.{
  ErrorCode, ScanLibrary, Scanned, yields, fails, then_scanned, Listing, ended, broken, entry,
  lt_source_id, tattoo_source_id_prefix, to_utf8, is_json, source_file_of, scan_loop,
  scan_tattoo_sources,
}

abbrev pub succeeds {ℓ} : {A : Type ℓ} → Scanned A → Bool
succeeds (yields a) = true
succeeds (fails code) = false

Scanned-cases {ℓ} :
    {A : Type ℓ} (r : Scanned A)
    → ((a : A) × (r ≡ yields a)) ⊎ ((code : ErrorCode) × (r ≡ fails code))
Scanned-cases (yields a) = inl (a, refl)
Scanned-cases (fails code) = inr (code, refl)

and-false : (a b : Bool) → (a && false && b) ≡ false
and-false true b = refl
and-false false b = refl

-- What `std::ranges::sort` promises: the elements, in order.
pub record SortsSources (library : ScanLibrary) : Type 0 where
  pub keeps : (xs : List TattooSourceFile) → Perm (library.sort lt_source_id xs) xs
  pub orders : (xs : List TattooSourceFile) → Ordered lt_source_id (library.sort lt_source_id xs)

module _ (library : ScanLibrary) where
  -- The source has the names of its file.
  pub record IsNamed (source : TattooSourceFile) : Type 0 where
    pub lowered : Text
    pub normalized : Text
    pub lowers : library.lc_map_string (library.filename source.effective_path) ≡ yields lowered
    pub normalizes : to_utf8 library lowered ≡ yields normalized
    pub identifies : source.source_id ≡ tattoo_source_id_prefix ++ normalized
    pub names : to_utf8 library (library.filename source.effective_path) ≡ yields source.source_file
    pub packs : to_utf8 library (library.stem source.effective_path) ≡ yields source.pack_name

  abbrev pub is_nameable : Text → Bool
  is_nameable path =
      succeeds (to_utf8 library (library.filename path))
      && succeeds (then_scanned (library.lc_map_string (library.filename path)) (to_utf8 library))
      && succeeds (to_utf8 library (library.stem path))

  -- Whether every step of the listing succeeds, and every JSON file of it has its names.
  abbrev pub is_readable : Listing → Bool
  is_readable ended = true
  is_readable (broken code) = false
  is_readable (entry path (fails code) next) = false
  is_readable (entry path (yields regular) next) =
      (if regular && is_json library path then is_nameable path else true) && is_readable next

  -- The JSON files of a listing, in its order.
  abbrev pub json_files : Listing → List Text
  json_files ended = []
  json_files (broken code) = []
  json_files (entry path (fails code) next) = []
  json_files (entry path (yields regular) next) =
      let rest = json_files next in if regular && is_json library path then path ∷ rest else rest

  data Tells (path : Text) : Scanned TattooSourceFile → Type 0 where
    tells :
        (source : TattooSourceFile)
        → source.effective_path ≡ path
        → IsNamed source
        → is_nameable path ≡ true
        → Tells path (yields source)
    fails_to : (code : _) → is_nameable path ≡ false → Tells path (fails code)

  source_file_of_lem : (path : Text) → Tells path (source_file_of library path)
  unfolding source_file_of then_scanned
  source_file_of_lem path = elim (Scanned-cases (library.lc_map_string (library.filename path))) [
    | inr (c, e) ↦ rw e (fails_to c (rw e (and-false _ _)))
    | inl (lowered, e) ↦ elim (Scanned-cases (to_utf8 library (library.filename path))) [
      | inr (c, e1) ↦ rw (e, e1) (fails_to c (rw e1 refl))
      | inl (name, e1) ↦ elim (Scanned-cases (to_utf8 library lowered)) [
        | inr (c, e2) ↦ rw (e, e1, e2) (fails_to c (rw (e, e1, e2) refl))
        | inl (normalized, e2) ↦ elim (Scanned-cases (to_utf8 library (library.stem path))) [
          | inr (c, e3) ↦ rw (e, e1, e2, e3) (fails_to c (rw (e, e1, e2, e3) refl))
          | inl (pack, e3) ↦
              rw (e, e1, e2, e3)
                (tells _ refl
                  (record {
                    lowered = lowered;
                    normalized = normalized;
                    lowers = e;
                    normalizes = e2;
                    identifies = refl;
                    names = e1;
                    packs = e3;
                  })
                  (rw (e, e1, e2, e3) refl))
        ]
      ]
    ]
  ]

  -- What a loop that starts with `sources` gives, for a listing.
  data Loops (sources : List TattooSourceFile) (listing : Listing)
      : Scanned (List TattooSourceFile) → Type 0 where
    loops :
        (found out : List TattooSourceFile)
        → out ≡ sources ++ found
        → map (λ f. f.effective_path) found ≡ json_files listing
        → All IsNamed found
        → is_readable listing ≡ true
        → Loops sources listing (yields out)
    loops_to : (code : ErrorCode) → is_readable listing ≡ false → Loops sources listing (fails code)

  Loops-skip :
      (path : Text) (regular : Bool) (next : Listing) (sources : List TattooSourceFile)
      {r : Scanned (List TattooSourceFile)}
      → (regular && is_json library path) ≡ false
      → Loops sources next r
      → Loops sources (entry path (yields regular) next) r
  Loops-skip path regular next sources e (loops found out o m a h) =
      loops found out o (rw e m) a (rw e h)
  Loops-skip path regular next sources e (loops_to code h) = loops_to code (rw e h)

  Loops-push :
      (path : Text) (regular : Bool) (next : Listing) (sources : List TattooSourceFile)
      (source : TattooSourceFile) {r : Scanned (List TattooSourceFile)}
      → (regular && is_json library path) ≡ true
      → source.effective_path ≡ path
      → IsNamed source
      → is_nameable path ≡ true
      → Loops (sources ++ (source ∷ [])) next r
      → Loops sources (entry path (yields regular) next) r
  Loops-push path regular next sources source e p n ok (loops found out o m a h) =
      loops (source ∷ found) out (o ∙ append_assoc sources (source ∷ []) found) (rw (e, p, m) refl)
        (n, a) (rw (e, ok) h)
  Loops-push path regular next sources source e p n ok (loops_to code h) =
      loops_to code (rw (e, ok) h)

  scan_loop_lem :
      (listing : Listing) (sources : List TattooSourceFile)
      → Loops sources listing (scan_loop library listing sources)
  unfolding scan_loop then_scanned
  scan_loop_lem ended sources = loops [] sources (sym (append-nil sources)) refl tt refl
  scan_loop_lem (broken code) sources = loops_to code refl
  scan_loop_lem (entry path (fails code) next) sources = loops_to code refl
  scan_loop_lem (entry path (yields regular) next) sources =
      elim (Bool-cases (regular && is_json library path)) [
        | inr e ↦ rw e (Loops-skip path regular next sources e (scan_loop_lem next sources))
        | inl e ↦ rw e (after e (λ xs. scan_loop_lem next xs) (source_file_of_lem path))
      ]
    where
      after :
          (regular && is_json library path) ≡ true
          → ((xs : List TattooSourceFile) → Loops xs next (scan_loop library next xs))
          → {r : Scanned TattooSourceFile} → Tells path r
          → Loops sources (entry path (yields regular) next) (
              then_scanned
                (then_scanned r (λ source. yields (sources ++ (source ∷ []))))
                (λ sources'. scan_loop library next sources'))
      after e rest (tells source p n ok) =
          Loops-push path regular next sources source e p n ok (rest (sources ++ (source ∷ [])))
      after e rest (fails_to code h) = loops_to code (rw (e, h) refl)

  -- A scan that ends gives the JSON files of the listing with their names, in order of their ids.
  pub data IsScan (listing : Listing) : Scanned (List TattooSourceFile) → Type 0 where
    finds :
        (found sources : List TattooSourceFile)
        → is_readable listing ≡ true
        → map (λ f. f.effective_path) found ≡ json_files listing
        → All IsNamed found
        → Perm sources found
        → Ordered lt_source_id sources
        → IsScan listing (yields sources)
    stops : (code : ErrorCode) → is_readable listing ≡ false → IsScan listing (fails code)

-- A scan of a folder gives its sources exactly if every step of the listing succeeds and each
-- regular file whose extension is .json up to case has names that convert; they are then, up to
-- order, one for each of these files, with the id, the file name and the pack of that file, and in
-- order of their ids; otherwise it gives an error; provided that the sort gives back its elements
-- in order.
pub scan_tattoo_sources-IsScan :
    (library : ScanLibrary) (directory : Text)
    → SortsSources library
    → IsScan library (library.directory_iterator directory) (scan_tattoo_sources library directory)
unfolding scan_tattoo_sources then_scanned
scan_tattoo_sources-IsScan library directory sorts =
    sorted (scan_loop_lem library (library.directory_iterator directory) [])
  where
    sorted :
        {r : Scanned (List TattooSourceFile)}
        → Loops library [] (library.directory_iterator directory) r
        → IsScan library
            (library.directory_iterator directory)
            (then_scanned r (λ sources. yields (library.sort lt_source_id sources)))
    sorted (loops found out o m a h) =
        finds found (library.sort lt_source_id out) h m a (rw (sym o) (sorts.keeps out))
          (sorts.orders out)
    sorted (loops_to code h) = stops code h
