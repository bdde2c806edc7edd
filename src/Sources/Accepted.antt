-- ===== src/Sources/Accepted.antt =====
-- Which entries give a definition.
use mathlib.Core.List.{append_assoc, append-nil}
use slavetat_ui.Base.{
  ℕ, ◌+◌, ◌≡◌, refl, ap, sym, ◌∙◌, inl, inr, Bool-cases, Bool, true, false, not, if◌then◌else◌,
  codes, List, [], ◌∷◌, ◌++◌, map, Option, some,
}
use slavetat_ui.Repository.Models.{TattooDefinition}
use slavetat_ui.Sources.Json.{JsonLibrary, parsed}
use slavetat_ui.Sources.Parser.{
  TattooSourceFile, TattooSourceParseReport, Read, value, error, read_entry, report_read,
  parse_entry, parse_entries, new_report, parse_tattoo_source,
}
use slavetat_ui.Sources.Bounds.{Reads, IsRead, read_entry-Reads}
use slavetat_ui.Sources.Fields.{is_value, is_accepted, read_entry_lem}

-- The places, from the first on, at which a test holds.
abbrev pub places : {A : Type 0} → (A → Bool) → ℕ → List A → List ℕ
places p index [] = []
places p index (x ∷ xs) = let rest = places p (index + 1) xs in if p x then index ∷ rest else rest

-- The places of a report.
abbrev pub defined : TattooSourceParseReport → List ℕ
defined report = map (λ d. d.source_index) report.definitions

abbrev pub refused : TattooSourceParseReport → List (Option ℕ)
refused report = map (λ i. i.entry_index) report.issues

abbrev one_if : {A : Type 0} → Bool → A → List A
one_if b a = if b then a ∷ [] else []

map-snoc :
    {A B : Type 0} (f : A → B) (xs : List A) (x : A)
    → map f (xs ++ (x ∷ [])) ≡ map f xs ++ (f x ∷ [])
map-snoc f [] x = refl
map-snoc f (y ∷ ys) x = ap (λ zs. f y ∷ zs) (map-snoc f ys x)

report_read_lem :
    (source : TattooSourceFile) (index : ℕ) (r : Read TattooDefinition)
    (report : TattooSourceParseReport)
    → Reads (IsRead source index) r
    → (defined (report_read index r report) ≡ defined report ++ one_if (is_value r) index)
      × (refused (report_read index r report)
          ≡ refused report ++ one_if (not (is_value r)) (some index))
unfolding Reads
report_read_lem source index (value d) report h = (
  map-snoc (λ x. x.source_index) report.definitions d
      ∙ ap (λ i. defined report ++ (i ∷ [])) h.1.place,
  sym (append-nil (refused report)),
)
report_read_lem source index (error message) report h = (
  sym (append-nil (defined report)),
  map-snoc (λ x. x.entry_index) report.issues
      (record { entry_index = some index; message = message }),
)

one_if-places :
    {A : Type 0} (p : A → Bool) (index : ℕ) (x : A) (xs : List A)
    → one_if (p x) index ++ places p (index + 1) xs ≡ places p index (x ∷ xs)
one_if-places p index x xs = elim (Bool-cases (p x)) [
  | inl e ↦ rw (e, places) refl
  | inr e ↦ rw (e, places) refl
]

one_if-map : (b : Bool) (index : ℕ) → one_if b (some index) ≡ map some (one_if b index)
one_if-map true index = refl
one_if-map false index = refl

map-append : {A B : Type 0} (f : A → B) (xs ys : List A) → map f (xs ++ ys) ≡ map f xs ++ map f ys
map-append f [] ys = refl
map-append f (x ∷ xs) ys = ap (λ zs. f x ∷ zs) (map-append f xs ys)

module _ {J : Type 0} (json : JsonLibrary J) where
  parse_entry_lem :
      (source : TattooSourceFile) (index : ℕ) (entry : J) (report : TattooSourceParseReport)
      → (defined (parse_entry json source index entry report)
          ≡ defined report ++ one_if (is_accepted json entry) index)
        × (refused (parse_entry json source index entry report)
            ≡ refused report ++ one_if (not (is_accepted json entry)) (some index))
  unfolding parse_entry
  parse_entry_lem source index entry report = elim (Bool-cases (json.is_object entry)) [
    | inl e ↦
        rw (← read_entry_lem json source index entry, e, parse_entry)
          (report_read_lem source index (read_entry json source index entry) report
            (read_entry-Reads json source index entry))
    | inr e ↦
        rw (← read_entry_lem json source index entry, e, parse_entry)
          (
            sym (append-nil (defined report)),
            map-snoc (λ x. x.entry_index) report.issues
                (record { entry_index = some index; message = codes "entry must be an object" }),
          )
  ]

  parse_entries_lem :
      (source : TattooSourceFile) (index : ℕ) (entries : List J) (report : TattooSourceParseReport)
      → (defined (parse_entries json source index entries report)
          ≡ defined report ++ places (is_accepted json) index entries)
        × (refused (parse_entries json source index entries report)
            ≡ refused report ++ map some (places (λ e. not (is_accepted json e)) index entries))
  unfolding parse_entries
  parse_entries_lem source index [] report =
      (sym (append-nil (defined report)), sym (append-nil (refused report)))
  parse_entries_lem source index (entry ∷ entries) report =
      let (d, r) = parse_entry_lem source index entry report in
      let (ds, rs) =
        parse_entries_lem source (index + 1) entries (parse_entry json source index entry report) in
      let later = places (λ e. not (is_accepted json e)) (index + 1) entries in
      (
        ds
            ∙ ap (λ l. l ++ places (is_accepted json) (index + 1) entries) d
            ∙ append_assoc (defined report) _ _
            ∙ ap (λ l. defined report ++ l) (one_if-places (is_accepted json) index entry entries),
        rs
            ∙ ap (λ l. l ++ map some later)
                (r
                  ∙ ap (λ l. refused report ++ l) (one_if-map (not (is_accepted json entry)) index))
            ∙ append_assoc (refused report) _ _
            ∙ ap (λ l. refused report ++ l)
                (sym (map-append some (one_if (not (is_accepted json entry)) index) later)
                  ∙ ap (map some)
                      (one_if-places (λ e. not (is_accepted json e)) index entry entries)),
      )

  -- The report on a document that is an array has a definition for exactly the places of the
  -- entries that are objects whose name, section, texture and area are strings and whose optional
  -- fields, where there are any, are as follows, and an issue for exactly the places of the others,
  -- both in order: credit, glowTexture and bump are strings; emissiveMult, glossiness and
  -- specularStrength are numbers that are finite as floats and not negative; in_bsa is a Boolean or
  -- an integer; and glow is an integer whose conversion to a signed 64-bit integer is in the 32-bit
  -- range. That conversion wraps, so the last is not a bound on the number in the document: an
  -- unsigned glow of 2^63 or more can be accepted.
  pub parse_tattoo_source_lem :
      (source : TattooSourceFile) (root : J)
      → json.is_array root ≡ true
      → let report = parse_tattoo_source json source (parsed (some root)) in
        (defined report ≡ places (is_accepted json) 0 (json.elements root))
        × (refused report
            ≡ map some (places (λ e. not (is_accepted json e)) 0 (json.elements root)))
  unfolding parse_tattoo_source
  parse_tattoo_source_lem source root h =
      rw (h, parse_tattoo_source) (parse_entries_lem source 0 (json.elements root) new_report)
