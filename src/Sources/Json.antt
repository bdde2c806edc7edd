-- ===== src/Sources/Json.antt =====
-- What the parser uses of nlohmann::json and of `std::ifstream`.
use slavetat_ui.Base.{ℤ, Float, Bool, Text, List, Option}

-- `J` is the type of JSON values; `get_int64` and `get_float` are conversions of any number.
pub record JsonLibrary (J : Type 0) : Type 0 where
  pub is_array : J → Bool
  pub is_object : J → Bool
  pub is_string : J → Bool
  pub is_boolean : J → Bool
  pub is_number : J → Bool
  pub is_number_integer : J → Bool
  pub elements : J → List J
  pub find : J → Text → Option J
  pub get_string : J → Text
  pub get_bool : J → Bool
  pub get_int64 : J → ℤ
  pub get_float : J → Float

-- The content of a file: `Json::parse`, which gives none for a discarded value, of a stream that opens.
pub data Content (J : Type 0) : Type 0 where
  unopened : Content J
  parsed : Option J → Content J
