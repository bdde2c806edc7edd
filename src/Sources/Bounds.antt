-- ===== src/Sources/Bounds.antt =====
-- The values of the definitions that are read.
use slavetat_ui.Base.{
  ℕ, ◌+◌, ◌^◌, ◌-◌, ◌≡◌, refl, arith, inl, inr, Option-cases, Bool-cases, ℤ, pos, negsuc, ltb_ℤ,
  Float, zero_f, lt_f, is_finite, true, false, Text, codes, List, [], ◌∷◌, ◌++◌, Option, none, some,
  All,
}
use slavetat_ui.Repository.Models.{TattooDefinition}
use slavetat_ui.Sources.Json.{JsonLibrary, Content, unopened, parsed}
use slavetat_ui.Sources.Parser.{
  TattooSourceFile, TattooSourceParseReport, Read, value, error, then_read,
  read_optional_material_float_field, read_glow, read_optional_fields, read_entry, report_read,
  parse_entry, parse_entries, new_report, parse_tattoo_source,
}

abbrev pub OnSome : {A : Type 0} → (A → Type 0) → Option A → Type 0
OnSome P none = Unit
OnSome P (some a) = P a

abbrev pub IsInt32 : ℤ → Type 0
IsInt32 z = (ltb_ℤ z (negsuc (2 ^ 31 - 1)) ≡ false) × (ltb_ℤ (pos (2 ^ 31 - 1)) z ≡ false)

-- Finite and not negative.
abbrev pub IsMaterial : Float → Type 0
IsMaterial f = (is_finite f ≡ true) × (lt_f f zero_f ≡ false)

pub record IsBounded (d : TattooDefinition) : Type 0 where
  pub glow : OnSome IsInt32 d.glow
  pub emissive : OnSome IsMaterial d.emissive_mult
  pub glossy : OnSome IsMaterial d.glossiness
  pub specular : OnSome IsMaterial d.specular_strength

-- The definition is of this source, at this place.
pub record IsFrom (source : TattooSourceFile) (index : ℕ) (d : TattooDefinition) : Type 0 where
  pub id : d.source_id ≡ source.source_id
  pub file : d.source_file ≡ source.source_file
  pub pack : d.pack_name ≡ source.pack_name
  pub place : d.source_index ≡ index

-- What holds of the value that is read, if there is one.
unfoldable pub Reads : {A : Type 0} → (A → Type 0) → Read A → Type 0
Reads P (value a) = P a
Reads P (error message) = Unit

then_read-Reads :
    {A B : Type 0} (P : A → Type 0) (Q : B → Type 0) (r : Read A) (f : A → Read B)
    → Reads P r
    → ((a : A) → P a → Reads Q (f a))
    → Reads Q (then_read r f)
unfolding then_read Reads
then_read-Reads P Q (value a) f h k = k a h
then_read-Reads P Q (error message) f h k = tt

value-Reads : {A : Type 0} (P : A → Type 0) (a : A) → P a → Reads P (value a)
unfolding Reads
value-Reads P a h = h

abbrev Anything : {A : Type 0} → A → Type 0
Anything a = Unit

Reads-Anything : {A : Type 0} (r : Read A) → Reads Anything r
unfolding Reads
Reads-Anything (value a) = tt
Reads-Anything (error message) = tt

-- What is read and not used in a property of the result.
then_read-any :
    {A B : Type 0} (Q : B → Type 0) (r : Read A) (f : A → Read B)
    → ((a : A) → Reads Q (f a))
    → Reads Q (then_read r f)
then_read-any Q r f k = then_read-Reads Anything Q r f (Reads-Anything r) (λ a u. k a)

-- In range, and of this source at this place.
abbrev pub IsRead : TattooSourceFile → ℕ → TattooDefinition → Type 0
IsRead source index d = IsBounded d × IsFrom source index d

-- In range, and of this source.
pub record IsParsed (source : TattooSourceFile) (d : TattooDefinition) : Type 0 where
  pub bounded : IsBounded d
  pub from : IsFrom source d.source_index d

abbrev AllParsed : TattooSourceFile → TattooSourceParseReport → Type 0
AllParsed source report = All (IsParsed source) report.definitions

All-snoc :
    {A : Type 0} (P : A → Type 0) (xs : List A) (x : A) → All P xs → P x → All P (xs ++ (x ∷ []))
All-snoc P [] x h k = (k, tt)
All-snoc P (y ∷ ys) x h k = (h.0, All-snoc P ys x h.1 k)

report_read-AllParsed :
    (source : TattooSourceFile) (index : ℕ) (r : Read TattooDefinition)
    (report : TattooSourceParseReport)
    → Reads (IsRead source index) r
    → AllParsed source report
    → AllParsed source (report_read index r report)
unfolding Reads
report_read-AllParsed source index (error message) report r h = h
report_read-AllParsed source index (value d) report (b, f) h =
    All-snoc (IsParsed source) report.definitions d h (record {
      bounded = b;
      from = record { id = f.id; file = f.file; pack = f.pack; place = refl };
    })

module _ {J : Type 0} (json : JsonLibrary J) where
  read_glow-Reads : (entry : J) → Reads (OnSome IsInt32) (read_glow json entry)
  unfolding read_glow Reads
  read_glow-Reads entry = elim (Option-cases (json.find entry (codes "glow"))) [
    | inl e ↦ rw (e, read_glow, Reads) tt
    | inr (item, e) ↦ rw (e, read_glow, Reads) (ground arith)
  ]

  read_float-Reads :
      (entry : J) (field : Text)
      → Reads (OnSome IsMaterial) (read_optional_material_float_field json entry field)
  unfolding read_optional_material_float_field Reads
  read_float-Reads entry field = elim (Option-cases (json.find entry field)) [
    | inl e ↦ rw (e, read_optional_material_float_field, Reads) tt
    | inr (item, e) ↦ rw (e, read_optional_material_float_field, Reads) (ground arith)
  ]

  read_optional_fields-Reads :
      (source : TattooSourceFile) (index : ℕ) (entry : J) (d : TattooDefinition)
      → IsFrom source index d
      → Reads (IsRead source index) (read_optional_fields json entry d)
  unfolding read_optional_fields
  read_optional_fields-Reads source index entry d from =
      then_read-Reads (OnSome IsInt32) (IsRead source index) _ _ (read_glow-Reads entry) λ glow g.
        then_read-any (IsRead source index) _ _ λ in_bsa.
          then_read-any (IsRead source index) _ _ λ credit.
            then_read-any (IsRead source index) _ _ λ glow_texture.
              then_read-Reads (OnSome IsMaterial) (IsRead source index) _ _
                (read_float-Reads entry (codes "emissiveMult"))
                λ emissive e.
                  then_read-Reads (OnSome IsMaterial) (IsRead source index) _ _
                    (read_float-Reads entry (codes "glossiness"))
                    λ glossy y.
                      then_read-Reads (OnSome IsMaterial) (IsRead source index) _ _
                        (read_float-Reads entry (codes "specularStrength"))
                        λ specular s. then_read-any (IsRead source index) _ _ λ bump.
                          value-Reads (IsRead source index) _ (
                            record { glow = g; emissive = e; glossy = y; specular = s },
                            record {
                              id = from.id;
                              file = from.file;
                              pack = from.pack;
                              place = from.place;
                            },
                          )

  pub read_entry-Reads :
      (source : TattooSourceFile) (index : ℕ) (entry : J)
      → Reads (IsRead source index) (read_entry json source index entry)
  unfolding read_entry
  read_entry-Reads source index entry = then_read-any (IsRead source index) _ _ λ name.
      then_read-any (IsRead source index) _ _ λ section.
        then_read-any (IsRead source index) _ _ λ texture_path.
          then_read-any (IsRead source index) _ _ λ area.
            read_optional_fields-Reads source index entry _
              (record { id = refl; file = refl; pack = refl; place = refl })

  parse_entry-AllParsed :
      (source : TattooSourceFile) (index : ℕ) (entry : J) (report : TattooSourceParseReport)
      → AllParsed source report
      → AllParsed source (parse_entry json source index entry report)
  unfolding parse_entry
  parse_entry-AllParsed source index entry report h = elim (Bool-cases (json.is_object entry)) [
    | inl e ↦
        rw (e, parse_entry)
          (report_read-AllParsed source index (read_entry json source index entry) report
            (read_entry-Reads source index entry) h)
    | inr e ↦ rw (e, parse_entry) h
  ]

  parse_entries-AllParsed :
      (source : TattooSourceFile) (index : ℕ) (entries : List J) (report : TattooSourceParseReport)
      → AllParsed source report
      → AllParsed source (parse_entries json source index entries report)
  unfolding parse_entries
  parse_entries-AllParsed source index [] report h = h
  parse_entries-AllParsed source index (entry ∷ entries) report h =
      parse_entries-AllParsed source (index + 1) entries
        (parse_entry json source index entry report)
        (parse_entry-AllParsed source index entry report h)

  -- Whatever the file holds, each definition of the report names its source, its file and its pack,
  -- has a glow in the range of 32 bits, and has material values that are finite and not negative.
  pub parse_tattoo_source-IsParsed :
      (source : TattooSourceFile) (content : Content J)
      → All (IsParsed source) (parse_tattoo_source json source content).definitions
  unfolding parse_tattoo_source
  parse_tattoo_source-IsParsed source unopened = tt
  parse_tattoo_source-IsParsed source (parsed none) = tt
  parse_tattoo_source-IsParsed source (parsed (some root)) =
      elim (Bool-cases (json.is_array root)) [
        | inl e ↦
            rw (e, parse_tattoo_source)
              (parse_entries-AllParsed source 0 (json.elements root) new_report tt)
        | inr e ↦ rw (e, parse_tattoo_source) tt
      ]
