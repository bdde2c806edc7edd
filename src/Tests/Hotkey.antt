-- ===== src/Tests/Hotkey.antt =====
-- The theorems of the hotkey.
use slavetat_ui.Base.{
  ℕ, ◌≡◌, refl, arith, pos, Bool, true, false, if◌then◌else◌, Text, codes, eq_text, eq_text_refl,
  [], Option, none, some,
}
use slavetat_ui.Hotkey.{ConfigLibrary, load, load_config, load_hotkey, named_key, select}
use slavetat_ui.Hotkey.Saved.{IsDocumented, select-load}

-- Values as nlohmann::json has them, as far as they are used.
data Value : Type 0 where
  nothing : Value
  numeral : ℕ → Value
  words : Text → Value
  empty : Value
  field : Text → Value → Value → Value

abbrev find_field : Value → Text → Option Value
find_field (field key v rest) name =
    let later = find_field rest name in if eq_text key name then some v else later
find_field other name = none

abbrev is_table : Value → Bool
is_table empty = true
is_table (field key v rest) = true
is_table other = false

abbrev is_nothing : Value → Bool
is_nothing nothing = true
is_nothing other = false

abbrev is_numeral : Value → Bool
is_numeral (numeral n) = true
is_numeral other = false

abbrev is_words : Value → Bool
is_words (words t) = true
is_words other = false

abbrev numeral_of : Value → ℕ
numeral_of (numeral n) = n
numeral_of other = 0

abbrev words_of : Value → Text
words_of (words t) = t
words_of other = []

abbrev is_there : Option Value → Bool
is_there none = false
is_there (some v) = true

abbrev content : Option Value → Option (Option Value)
content none = none
content (some v) = some (some v)

-- The world is the file, if there is one; writing succeeds.
abbrev one_file : ConfigLibrary Value (Option Value)
one_file = record {
  empty_object = empty;
  null = nothing;
  number = numeral;
  set = field;
  find = find_field;
  is_object = is_table;
  is_null = is_nothing;
  is_number_unsigned = is_numeral;
  is_number_integer = is_numeral;
  is_string = is_words;
  get_uint32 = numeral_of;
  get_int64 = λ v. pos (numeral_of v);
  get_string = words_of;
  exists = is_there;
  read = content;
  write = λ v w. (true, some v);
}

find_field-field :
    (name : Text) (v config : Value)
    → is_table config ≡ true
    → find_field (field name v config) name ≡ some v
find_field-field name v config h = rw (eq_text_refl name) refl

one_file-IsDocumented : IsDocumented one_file
one_file-IsDocumented = record {
  empty-object = refl;
  object-set = λ name v config h. refl;
  find-set = find_field-field;
  null-null = refl;
  null-number = λ n. refl;
  unsigned-number = λ n. refl;
  uint32-number = λ n h. refl;
  exists-write = λ config w h. refl;
  read-write = λ config w h. refl;
}

-- A file that names the key: `f10`, in whatever case.
abbrev named : Value
named = field (codes "hotkey") (words (codes "f10")) empty

named_loads : (load one_file (none, some named)).1.0 ≡ some 0x44
unfolding load load_config load_hotkey named_key
named_loads = refl

select-load_example :
    let (selected, (now, w')) = select one_file (some 0x3B) (none, some named) in
    if selected
    then (now ≡ some 0x3B) × (load one_file (some 0x44, w') ≡ (true, (some 0x3B, w')))
    else now ≡ none
select-load_example =
    select-load one_file one_file-IsDocumented (some 0x3B) none (some 0x44) (some named)
      (omega arith)
