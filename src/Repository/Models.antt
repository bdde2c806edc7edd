-- ===== src/Repository/Models.antt =====
-- The data of src/repository/TattooSourceParser.h and TattooRepository.h.
use slavetat_ui.Base.{ℕ, ℤ, Float, Text, List, [], Option, Bool}

pub record TattooDefinition : Type 0 where
  pub source_id : Text
  pub source_file : Text
  pub pack_name : Text
  pub source_index : ℕ
  pub name : Text
  pub section : Text
  pub texture_path : Text
  pub area : Text
  pub glow : Option ℤ
  pub in_bsa : Option Bool
  pub credit : Option Text
  pub glow_texture : Option Text
  pub emissive_mult : Option Float
  pub glossiness : Option Float
  pub specular_strength : Option Float
  pub bump : Option Text

abbrev pub default_tattoo_page_size : ℕ
default_tattoo_page_size = 24

pub record TattooFilter : Type 0 where
  pub search : Text
  pub source_id : Text
  pub section : Text
  pub area : Text
  pub page_index : ℕ
  pub page_size : ℕ

pub record TattooPage : Type 0 where
  pub entries : List TattooDefinition
  pub total_entries : ℕ
  pub matched_entries : ℕ
  pub page_index : ℕ
  pub page_size : ℕ
  pub page_count : ℕ

pub record TattooSourceOption : Type 0 where
  pub source_id : Text
  pub pack_name : Text

pub record TattooFacets : Type 0 where
  pub sources : List TattooSourceOption
  pub sections : List Text
  pub areas : List Text

abbrev pub no_facets : TattooFacets
no_facets = record { sources = []; sections = []; areas = [] }

-- A definition with its folded keys.
pub record IndexedDefinition : Type 0 where
  pub definition : TattooDefinition
  pub folded_search : Text
  pub folded_source_id : Text
  pub folded_section : Text
  pub folded_area : Text
  pub folded_pack_name : Text
  pub folded_name : Text
  pub folded_texture_path : Text

pub record TattooRepository : Type 0 where
  pub entries : List IndexedDefinition
  pub facets : TattooFacets
