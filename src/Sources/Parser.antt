-- ===== src/Sources/Parser.antt =====
-- src/repository/TattooSourceParser.{h,cpp}. A reader gives its value or its message; the source gives a Boolean
-- and writes to a reference.
use slavetat_ui.Base.{
  ℕ, ◌+◌, ◌^◌, ◌-◌, ℤ, pos, negsuc, ltb_ℤ, ◌==ℤ◌, Float, zero_f, lt_f, is_finite, Bool, not, ◌||◌,
  if◌then◌else◌, Text, codes, List, [], ◌∷◌, ◌++◌, Option, none, some,
}
use slavetat_ui.Repository.Models.{TattooDefinition}
use slavetat_ui.Sources.Json.{JsonLibrary, Content, unopened, parsed}

pub record TattooSourceFile : Type 0 where
  pub source_id : Text
  pub source_file : Text
  pub pack_name : Text
  pub effective_path : Text

pub record TattooParseIssue : Type 0 where
  pub entry_index : Option ℕ
  pub message : Text

pub record TattooSourceParseReport : Type 0 where
  pub definitions : List TattooDefinition
  pub issues : List TattooParseIssue

pub data Read {ℓ} (A : Type ℓ) : Type ℓ where
  value : A → Read A
  error : Text → Read A

unfoldable pub then_read {ℓ κ} : {A : Type ℓ} {B : Type κ} → Read A → (A → Read B) → Read B
then_read (value a) f = f a
then_read (error message) f = error message

abbrev pub field_error : Text → Text → Text
field_error field rest = codes "field '" ++ (field ++ (codes "' " ++ rest))

abbrev pub new_definition : TattooSourceFile → ℕ → TattooDefinition
new_definition source index = record {
  source_id = source.source_id;
  source_file = source.source_file;
  pack_name = source.pack_name;
  source_index = index;
  name = [];
  section = [];
  texture_path = [];
  area = [];
  glow = none;
  in_bsa = none;
  credit = none;
  glow_texture = none;
  emissive_mult = none;
  glossiness = none;
  specular_strength = none;
  bump = none;
}

abbrev pub push_issue : Option ℕ → Text → TattooSourceParseReport → TattooSourceParseReport
push_issue index message report = record report {
  issues = report.issues ++ (record { entry_index = index; message = message } ∷ []);
}

abbrev pub report_read :
    ℕ → Read TattooDefinition → TattooSourceParseReport → TattooSourceParseReport
report_read index (value definition) report = record report {
  definitions = report.definitions ++ (definition ∷ []);
}
report_read index (error message) report = push_issue (some index) message report

abbrev pub new_report : TattooSourceParseReport
new_report = record { definitions = []; issues = [] }

module _ {J : Type 0} (json : JsonLibrary J) where
  unfoldable pub read_required_string : J → Text → Read Text
  read_required_string entry field = elim (json.find entry field) [
    | none ↦ error (field_error field (codes "must be a string"))
    | some item ↦
        if json.is_string item
        then value (json.get_string item)
        else error (field_error field (codes "must be a string"))
  ]

  unfoldable pub read_optional_string_field : J → Text → Read (Option Text)
  read_optional_string_field entry field = elim (json.find entry field) [
    | none ↦ value none
    | some item ↦
        if json.is_string item
        then value (some (json.get_string item))
        else error (field_error field (codes "must be a string"))
  ]

  unfoldable pub read_optional_material_float_field : J → Text → Read (Option Float)
  read_optional_material_float_field entry field = elim (json.find entry field) [
    | none ↦ value none
    | some item ↦
        if not (json.is_number item)
        then error (field_error field (codes "must be a finite non-negative number"))
        else if not (is_finite (json.get_float item)) || lt_f (json.get_float item) zero_f
        then error (field_error field (codes "must be a finite non-negative number"))
        else value (some (json.get_float item))
  ]

  unfoldable pub read_glow : J → Read (Option ℤ)
  read_glow entry = elim (json.find entry (codes "glow")) [
    | none ↦ value none
    | some glow ↦
        if not (json.is_number_integer glow)
        then error (codes "field 'glow' must be an integer")
        else if ltb_ℤ (json.get_int64 glow) (negsuc (2 ^ 31 - 1))
            || ltb_ℤ (pos (2 ^ 31 - 1)) (json.get_int64 glow)
        then error (codes "field 'glow' is outside the supported range")
        else value (some (json.get_int64 glow))
  ]

  unfoldable pub read_in_bsa : J → Read (Option Bool)
  read_in_bsa entry = elim (json.find entry (codes "in_bsa")) [
    | none ↦ value none
    | some in_bsa ↦
        if json.is_boolean in_bsa
        then value (some (json.get_bool in_bsa))
        else if json.is_number_integer in_bsa
        then value (some (not (json.get_int64 in_bsa ==ℤ pos 0)))
        else error (codes "field 'in_bsa' must be a boolean or integer")
  ]

  unfoldable pub read_credit : J → Read (Option Text)
  read_credit entry = elim (json.find entry (codes "credit")) [
    | none ↦ value none
    | some credit ↦
        if json.is_string credit
        then value (some (json.get_string credit))
        else error (codes "field 'credit' must be a string")
  ]

  unfoldable pub read_optional_fields : J → TattooDefinition → Read TattooDefinition
  unfolding read_glow read_in_bsa read_credit read_optional_string_field
      read_optional_material_float_field
  read_optional_fields entry definition = then_read (read_glow entry) λ glow.
      then_read (read_in_bsa entry) λ in_bsa. then_read (read_credit entry) λ credit.
        then_read (read_optional_string_field entry (codes "glowTexture")) λ glow_texture.
          then_read (read_optional_material_float_field entry (codes "emissiveMult"))
            λ emissive_mult.
              then_read (read_optional_material_float_field entry (codes "glossiness"))
                λ glossiness.
                  then_read (read_optional_material_float_field entry (codes "specularStrength"))
                    λ specular_strength.
                      then_read (read_optional_string_field entry (codes "bump")) λ bump.
                        value (record definition {
                          glow = glow;
                          in_bsa = in_bsa;
                          credit = credit;
                          glow_texture = glow_texture;
                          emissive_mult = emissive_mult;
                          glossiness = glossiness;
                          specular_strength = specular_strength;
                          bump = bump;
                        })

  unfoldable pub read_entry : TattooSourceFile → ℕ → J → Read TattooDefinition
  read_entry source index entry = then_read (read_required_string entry (codes "name")) λ name.
      then_read (read_required_string entry (codes "section")) λ section.
        then_read (read_required_string entry (codes "texture")) λ texture_path.
          then_read (read_required_string entry (codes "area")) λ area.
            read_optional_fields entry (record (new_definition source index) {
              name = name;
              section = section;
              texture_path = texture_path;
              area = area;
            })

  -- One round of the loop over the elements.
  unfoldable pub parse_entry :
      TattooSourceFile → ℕ → J → TattooSourceParseReport → TattooSourceParseReport
  unfolding read_entry
  parse_entry source index entry report =
      if not (json.is_object entry)
      then push_issue (some index) (codes "entry must be an object") report
      else report_read index (read_entry source index entry) report

  unfoldable pub parse_entries :
      TattooSourceFile → ℕ → List J → TattooSourceParseReport → TattooSourceParseReport
  unfolding parse_entry
  parse_entries source index [] report = report
  parse_entries source index (entry ∷ entries) report =
      parse_entries source (index + 1) entries (parse_entry source index entry report)

  unfoldable pub parse_tattoo_source : TattooSourceFile → Content J → TattooSourceParseReport
  unfolding parse_entries
  parse_tattoo_source source unopened =
      push_issue none (codes "could not open source file") new_report
  parse_tattoo_source source (parsed none) = push_issue none (codes "invalid JSON") new_report
  parse_tattoo_source source (parsed (some root)) =
      if not (json.is_array root)
      then push_issue none (codes "root must be an array") new_report
      else parse_entries source 0 (json.elements root) new_report
