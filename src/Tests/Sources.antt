-- ===== src/Tests/Sources.antt =====
-- The theorems of the source parser.
use slavetat_ui.Base.{
  ◌≡◌, refl, ℤ, pos, fin, Bool, true, false, not, Text, codes, Map, find_key, List, [], ◌∷◌, map,
  All, Option, none, some,
}
use slavetat_ui.Sources.Json.{JsonLibrary, parsed}
use slavetat_ui.Sources.Parser.{
  TattooSourceFile, parse_tattoo_source, read_optional_fields, read_required_string, then_read,
  read_entry,
}
use slavetat_ui.Sources.Bounds.{IsParsed, parse_tattoo_source-IsParsed}
use slavetat_ui.Sources.Fields.{is_accepted}
use slavetat_ui.Sources.Accepted.{defined, refused, places, parse_tattoo_source_lem}

-- Documents of lists of objects, whose fields are texts and numbers.
pub data Leaf : Type 0 where
  words : Text → Leaf
  whole : ℤ → Leaf

pub data Document : Type 0 where
  leaf : Leaf → Document
  object : Map Leaf → Document
  array : List (Map Leaf) → Document

abbrev is_words : Document → Bool
is_words (leaf (words t)) = true
is_words d = false

abbrev is_whole : Document → Bool
is_whole (leaf (whole z)) = true
is_whole d = false

abbrev found : Option Leaf → Option Document
found none = none
found (some l) = some (leaf l)

abbrev field : Document → Text → Option Document
field (object fields) name = found (find_key name fields)
field d name = none

abbrev document_is_array : Document → Bool
document_is_array (array entries) = true
document_is_array d = false

abbrev document_is_object : Document → Bool
document_is_object (object fields) = true
document_is_object d = false

abbrev document_elements : Document → List Document
document_elements (array entries) = map object entries
document_elements d = []

abbrev document_text : Document → Text
document_text (leaf (words t)) = t
document_text d = []

abbrev document_number : Document → ℤ
document_number (leaf (whole z)) = z
document_number d = pos 0

abbrev pub documents : JsonLibrary Document
documents = record {
  is_array = document_is_array;
  is_object = document_is_object;
  is_string = is_words;
  is_boolean = λ d. false;
  is_number = is_whole;
  is_number_integer = is_whole;
  elements = document_elements;
  find = field;
  get_string = document_text;
  get_bool = λ d. false;
  get_int64 = document_number;
  get_float = λ d. fin (document_number d);
}

abbrev pack : TattooSourceFile
pack = record {
  source_id = codes "id";
  source_file = codes "pack.json";
  pack_name = codes "Pack";
  effective_path = codes "pack.json";
}

abbrev rose : Map Leaf
rose =
    (codes "name", words (codes "Rose"))
    ∷ ((codes "section", words (codes "Flowers"))
        ∷ ((codes "texture", words (codes "rose.dds"))
            ∷ ((codes "area", words (codes "BODY")) ∷ [])))

-- The second entry lacks its name, and the third has a glow that is out of range.
abbrev pub three : Document
three = array (
    ((codes "glow", whole (pos 255)) ∷ rose)
    ∷ (((codes "section", words (codes "Flowers")) ∷ [])
        ∷ (((codes "glow", whole (pos 2147483648)) ∷ rose) ∷ [])))

three_places :
    (defined (parse_tattoo_source documents pack (parsed (some three))) ≡ 0 ∷ [])
    × (refused (parse_tattoo_source documents pack (parsed (some three))) ≡ some 1 ∷ (some 2 ∷ []))
unfolding parse_tattoo_source read_entry read_required_string read_optional_fields then_read
three_places = (refl, refl)

parse_tattoo_source_lem_example :
    let report = parse_tattoo_source documents pack (parsed (some three)) in
    (defined report ≡ places (is_accepted documents) 0 (document_elements three))
    × (refused report
        ≡ map some (places (λ e. not (is_accepted documents e)) 0 (document_elements three)))
parse_tattoo_source_lem_example = parse_tattoo_source_lem documents pack three refl

parse_tattoo_source-IsParsed_example :
    All (IsParsed pack) (parse_tattoo_source documents pack (parsed (some three))).definitions
parse_tattoo_source-IsParsed_example =
    parse_tattoo_source-IsParsed documents pack (parsed (some three))
