-- ===== src/Hotkey.antt =====
-- src/runtime/HotkeyBinding.{h,cpp}. The JSON library and the configuration file are parameters.
use slavetat_ui.Base.{
  ℕ, ◌-◌, ◌^◌, ◌+◌, ◌==◌, ltb, leb, ℤ, pos, negsuc, Bool, true, false, not, ◌&&◌, if◌then◌else◌,
  Text, codes, eq_text, map, List, [], ◌∷◌, Option, none, some,
}
pub mod Saved

-- What is used of nlohmann::json and of the file streams, on a world `W` that holds the file; `read` gives
-- none for a file that does not open, and `some none` for a discarded value.
pub record ConfigLibrary (J W : Type 0) : Type 0 where
  pub empty_object : J
  pub null : J
  pub number : ℕ → J
  pub set : Text → J → J → J
  pub find : J → Text → Option J
  pub is_object : J → Bool
  pub is_null : J → Bool
  pub is_number_unsigned : J → Bool
  pub is_number_integer : J → Bool
  pub is_string : J → Bool
  pub get_uint32 : J → ℕ
  pub get_int64 : J → ℤ
  pub get_string : J → Text
  pub exists : W → Bool
  pub read : W → Option (Option J)
  pub write : J → W → Bool × W

abbrev pub hotkey_options : List (Text × Option ℕ)
hotkey_options =
    (codes "None", none)
    ∷ ((codes "F1", some 0x3B)
        ∷ ((codes "F2", some 0x3C)
            ∷ ((codes "F3", some 0x3D)
                ∷ ((codes "F4", some 0x3E)
                    ∷ ((codes "F5", some 0x3F)
                        ∷ ((codes "F6", some 0x40)
                            ∷ ((codes "F7", some 0x41)
                                ∷ ((codes "F8", some 0x42)
                                    ∷ ((codes "F9", some 0x43)
                                        ∷ ((codes "F10", some 0x44)
                                            ∷ ((codes "F11", some 0x57)
                                                ∷ ((codes "F12", some 0x58)
                                                    ∷ ((codes "A", some 0x1E)
                                                        ∷ ((codes "B", some 0x30)
                                                            ∷ ((codes "C", some 0x2E)
                                                            ∷ ((codes "D", some 0x20)
                                                            ∷ ((codes "E", some 0x12)
                                                            ∷ ((codes "F", some 0x21)
                                                            ∷ ((codes "G", some 0x22)
                                                            ∷ ((codes "H", some 0x23)
                                                            ∷ ((codes "I", some 0x17)
                                                            ∷ ((codes "J", some 0x24)
                                                            ∷ ((codes "K", some 0x25)
                                                            ∷ ((codes "L", some 0x26)
                                                            ∷ ((codes "M", some 0x32)
                                                            ∷ ((codes "N", some 0x31)
                                                            ∷ ((codes "O", some 0x18)
                                                            ∷ ((codes "P", some 0x19)
                                                            ∷ ((codes "Q", some 0x10)
                                                            ∷ ((codes "R", some 0x13)
                                                            ∷ ((codes "S", some 0x1F)
                                                            ∷ ((codes "T", some 0x14)
                                                            ∷ ((codes "U", some 0x16)
                                                            ∷ ((codes "V", some 0x2F)
                                                            ∷ ((codes "W", some 0x11)
                                                            ∷ ((codes "X", some 0x2D)
                                                            ∷ ((codes "Y", some 0x15)
                                                            ∷ ((codes "Z", some 0x2C)
                                                            ∷ ((codes "0", some 0x0B)
                                                            ∷ ((codes "1", some 0x02)
                                                            ∷ ((codes "2", some 0x03)
                                                            ∷ ((codes "3", some 0x04)
                                                            ∷ ((codes "4", some 0x05)
                                                            ∷ ((codes "5", some 0x06)
                                                            ∷ ((codes "6", some 0x07)
                                                            ∷ ((codes "7", some 0x08)
                                                            ∷ ((codes "8", some 0x09)
                                                            ∷ ((codes "9", some 0x0A)
                                                            ∷ ((codes "INSERT", some 0xD2)
                                                            ∷ ((codes "DELETE", some 0xD3)
                                                            ∷ ((codes "HOME", some 0xC7)
                                                            ∷ ((codes "END", some 0xCF)
                                                            ∷ ((codes "PAGEUP", some 0xC9)
                                                            ∷ ((codes "PAGEDOWN", some 0xD1)
                                                            ∷ ((codes "UP", some 0xC8)
                                                            ∷ ((codes "DOWN", some 0xD0)
                                                            ∷ ((codes "LEFT", some 0xCB)
                                                            ∷ ((codes "RIGHT", some 0xCD)
                                                            ∷ ((codes "TILDE", some 0x29)
                                                            ∷ ((codes "BACKSLASH", some 0x2B)
                                                            ∷ ((codes "NUMPAD0", some 0x52)
                                                            ∷ ((codes "NUMPAD1", some 0x4F)
                                                            ∷ ((codes "NUMPAD2", some 0x50)
                                                            ∷ ((codes "NUMPAD3", some 0x51)
                                                            ∷ ((codes "NUMPAD4", some 0x4B)
                                                            ∷ ((codes "NUMPAD5", some 0x4C)
                                                            ∷ ((codes "NUMPAD6", some 0x4D)
                                                            ∷ ((codes "NUMPAD7", some 0x47)
                                                            ∷ ((codes "NUMPAD8", some 0x48)
                                                            ∷ ((codes "NUMPAD9", some 0x49) ∷ []))))
                                                            ))))))))))))))))))))))))))))))))))))))))
                                                            ))))))))))))))))))))))))))

abbrev pub to_upper : ℕ → ℕ
to_upper c = if leb b'a' c && leb c b'z' then c - 32 else c

-- The first option of a name that has a key.
unfoldable pub named_key : Text → List (Text × Option ℕ) → Option ℕ
named_key name [] = none
named_key name ((label, none) ∷ options) = named_key name options
named_key name ((label, some key) ∷ options) =
    let later = named_key name options in if eq_text label name then some key else later

abbrev pub found_key : Option ℕ → Option ℕ → Bool × Option ℕ
found_key old none = (false, old)
found_key old (some key) = (true, some key)

-- The value of an integer that is not unsigned.
abbrev pub int64_key : Option ℕ → ℤ → Bool × Option ℕ
int64_key old (pos n) = if ltb n (2 ^ 32) then (true, some n) else (false, old)
int64_key old (negsuc n) = (false, old)

module _ {J W : Type 0} (lib : ConfigLibrary J W) where
  abbrev pub object_or_empty : Option (Option J) → J
  object_or_empty (some (some config)) = if lib.is_object config then config else lib.empty_object
  object_or_empty o = lib.empty_object

  abbrev pub key_json : Option ℕ → J
  key_json none = lib.null
  key_json (some key) = lib.number key

  unfoldable pub save : Option ℕ → W → Bool × W
  save key w = lib.write (lib.set (codes "hotkey") (key_json key) (object_or_empty (lib.read w))) w

  -- The result of `load` and the key that it leaves, for the value under "hotkey".
  unfoldable pub load_hotkey : Option ℕ → J → Bool × Option ℕ
  unfolding named_key
  load_hotkey old hotkey =
      if lib.is_null hotkey
      then (true, none)
      else if lib.is_number_unsigned hotkey
      then (true, some (lib.get_uint32 hotkey))
      else if lib.is_number_integer hotkey
      then int64_key old (lib.get_int64 hotkey)
      else if lib.is_string hotkey
      then found_key old (named_key (map to_upper (lib.get_string hotkey)) hotkey_options)
      else (false, old)

  unfoldable pub load_config : Option ℕ → J → Bool × Option ℕ
  unfolding load_hotkey
  load_config old config =
      if not (lib.is_object config) then (false, old) else elim (lib.find config (codes "hotkey")) [
        | none ↦ (false, old)
        | some hotkey ↦ load_hotkey old hotkey
      ]

  abbrev pub load_read : Option ℕ → Option (Option J) → Bool × Option ℕ
  load_read old (some (some config)) = load_config old config
  load_read old o = (false, old)

  -- The state is the key, with the world.
  unfoldable pub load : Option ℕ × W → Bool × (Option ℕ × W)
  unfolding save load_config
  load (old, w) =
      let (saved, w') = save none w in
      let (result, key) = load_read old (lib.read w) in
      if not (lib.exists w) then (saved, (none, w')) else (result, (key, w))

  unfoldable pub select : Option ℕ → Option ℕ × W → Bool × (Option ℕ × W)
  unfolding save
  select key (previous, w) =
      let (saved, w') = save key w in (saved, (if saved then key else previous, w'))

abbrev pub matches : ℕ → Option ℕ → Bool
matches key none = false
matches key (some k) = k == key
