-- ===== src/Sources/Fields.antt =====
-- When the fields of an entry are read.
use slavetat_ui.Base.{
  ℕ, ◌^◌, ◌-◌, ◌≡◌, refl, arith, ap, ◌∙◌, inl, inr, Option-cases, pos, negsuc, ltb_ℤ, zero_f, lt_f,
  is_finite, Bool, true, false, not, ◌||◌, ◌&&◌, Text, codes, none, some,
}
use slavetat_ui.Repository.Models.{TattooDefinition}
use slavetat_ui.Sources.Json.{JsonLibrary}
use slavetat_ui.Sources.Parser.{
  TattooSourceFile, Read, value, error, then_read, read_required_string, read_optional_string_field,
  read_optional_material_float_field, read_glow, read_in_bsa, read_credit, read_optional_fields,
  read_entry,
}

abbrev pub is_value : {A : Type 0} → Read A → Bool
is_value (value a) = true
is_value (error message) = false

then_read-is_value :
    {A B : Type 0} (r : Read A) (f : A → Read B) (rest : Bool)
    → ((a : A) → is_value (f a) ≡ rest)
    → is_value (then_read r f) ≡ (is_value r && rest)
unfolding then_read
then_read-is_value (value a) f rest h = h a
then_read-is_value (error message) f rest h = refl

module _ {J : Type 0} (json : JsonLibrary J) where
  -- A field that passes a test, if it is there.
  abbrev pub optional : J → Text → (J → Bool) → Bool
  optional entry field p = elim (json.find entry field) [ none ↦ true | some item ↦ p item ]

  abbrev pub required : J → Text → (J → Bool) → Bool
  required entry field p = elim (json.find entry field) [ none ↦ false | some item ↦ p item ]

  abbrev pub is_material : J → Bool
  is_material item =
      json.is_number item
      && (is_finite (json.get_float item) && not (lt_f (json.get_float item) zero_f))

  -- The range is that of the number as `get_int64` gives it, which wraps an unsigned one of 2^63 or more.
  abbrev pub is_glow : J → Bool
  is_glow item =
      json.is_number_integer item
      && (not (ltb_ℤ (json.get_int64 item) (negsuc (2 ^ 31 - 1)))
          && not (ltb_ℤ (pos (2 ^ 31 - 1)) (json.get_int64 item)))

  -- The optional fields are as they should be.
  abbrev pub are_optionals_accepted : J → Bool
  are_optionals_accepted entry =
      optional entry (codes "glow") is_glow
      && (optional entry (codes "in_bsa")
            (λ item. json.is_boolean item || json.is_number_integer item)
          && (optional entry (codes "credit") json.is_string
              && (optional entry (codes "glowTexture") json.is_string
                  && (optional entry (codes "emissiveMult") is_material
                      && (optional entry (codes "glossiness") is_material
                          && (optional entry (codes "specularStrength") is_material
                              && (optional entry (codes "bump") json.is_string && true)))))))

  -- The fields of an entry are as they should be.
  abbrev pub is_accepted : J → Bool
  is_accepted entry =
      json.is_object entry
      && (required entry (codes "name") json.is_string
          && (required entry (codes "section") json.is_string
              && (required entry (codes "texture") json.is_string
                  && (required entry (codes "area") json.is_string
                      && are_optionals_accepted entry))))

  required_lem :
      (entry : J) (field : Text)
      → is_value (read_required_string json entry field) ≡ required entry field json.is_string
  unfolding read_required_string
  required_lem entry field = elim (Option-cases (json.find entry field)) [
    | inl e ↦ rw (e, read_required_string, required) refl
    | inr (item, e) ↦ rw (e, read_required_string, required) (ground arith)
  ]

  optional_lem :
      (entry : J) (field : Text)
      → is_value (read_optional_string_field json entry field) ≡ optional entry field json.is_string
  unfolding read_optional_string_field
  optional_lem entry field = elim (Option-cases (json.find entry field)) [
    | inl e ↦ rw (e, read_optional_string_field, optional) refl
    | inr (item, e) ↦ rw (e, read_optional_string_field, optional) (ground arith)
  ]

  material_lem :
      (entry : J) (field : Text)
      → is_value (read_optional_material_float_field json entry field)
        ≡ optional entry field is_material
  unfolding read_optional_material_float_field
  material_lem entry field = elim (Option-cases (json.find entry field)) [
    | inl e ↦ rw (e, read_optional_material_float_field, optional) refl
    | inr (item, e) ↦ rw (e, read_optional_material_float_field, optional) (ground arith)
  ]

  glow_lem : (entry : J) → is_value (read_glow json entry) ≡ optional entry (codes "glow") is_glow
  unfolding read_glow
  glow_lem entry = elim (Option-cases (json.find entry (codes "glow"))) [
    | inl e ↦ rw (e, read_glow, optional) refl
    | inr (item, e) ↦ rw (e, read_glow, optional) (ground arith)
  ]

  in_bsa_lem :
      (entry : J)
      → is_value (read_in_bsa json entry)
        ≡ optional entry
            (codes "in_bsa")
            (λ item. json.is_boolean item || json.is_number_integer item)
  unfolding read_in_bsa
  in_bsa_lem entry = elim (Option-cases (json.find entry (codes "in_bsa"))) [
    | inl e ↦ rw (e, read_in_bsa, optional) refl
    | inr (item, e) ↦ rw (e, read_in_bsa, optional) (ground arith)
  ]

  credit_lem :
      (entry : J)
      → is_value (read_credit json entry) ≡ optional entry (codes "credit") json.is_string
  unfolding read_credit
  credit_lem entry = elim (Option-cases (json.find entry (codes "credit"))) [
    | inl e ↦ rw (e, read_credit, optional) refl
    | inr (item, e) ↦ rw (e, read_credit, optional) (ground arith)
  ]

  -- A reader, and those after it.
  then_lem :
      {A B : Type 0} (r : Read A) (f : A → Read B) (first rest : Bool)
      → is_value r ≡ first
      → ((a : A) → is_value (f a) ≡ rest)
      → is_value (then_read r f) ≡ (first && rest)
  then_lem r f first rest e h = then_read-is_value r f rest h ∙ ap (λ b. b && rest) e

  read_optional_fields_lem :
      (entry : J) (d : TattooDefinition)
      → is_value (read_optional_fields json entry d) ≡ are_optionals_accepted entry
  unfolding read_optional_fields
  read_optional_fields_lem entry d = then_lem _ _ _ _ (glow_lem entry) λ glow.
      then_lem _ _ _ _ (in_bsa_lem entry) λ in_bsa. then_lem _ _ _ _ (credit_lem entry) λ credit.
        then_lem _ _ _ _ (optional_lem entry (codes "glowTexture")) λ glow_texture.
          then_lem _ _ _ _ (material_lem entry (codes "emissiveMult")) λ emissive_mult.
            then_lem _ _ _ _ (material_lem entry (codes "glossiness")) λ glossiness.
              then_lem _ _ _ _ (material_lem entry (codes "specularStrength")) λ specular_strength.
                then_lem _ _ _ _ (optional_lem entry (codes "bump")) λ bump. refl

  pub read_entry_lem :
      (source : TattooSourceFile) (index : ℕ) (entry : J)
      → (json.is_object entry && is_value (read_entry json source index entry)) ≡ is_accepted entry
  unfolding read_entry
  read_entry_lem source index entry =
      ap (λ b. json.is_object entry && b)
        (then_lem _ _ _ _ (required_lem entry (codes "name")) λ name.
          then_lem _ _ _ _ (required_lem entry (codes "section")) λ section.
            then_lem _ _ _ _ (required_lem entry (codes "texture")) λ texture_path.
              then_lem _ _ _ _ (required_lem entry (codes "area"))
                λ area. read_optional_fields_lem entry _)
