-- ===== src/Hotkey/Saved.antt =====
-- Selecting a key and loading it, on documented behaviour of the library and of the files.
use slavetat_ui.Base.{
  ℕ, ◌^◌, ◌<◌, ◌≡◌, refl, inl, inr, Bool-cases, true, false, if◌then◌else◌, Text, codes, Option,
  none, some,
}
use slavetat_ui.Hotkey.{
  ConfigLibrary, object_or_empty, key_json, save, load_hotkey, load_config, load, select,
}

-- A key that fits 32 bits.
abbrev pub IsKey : Option ℕ → Type 0
IsKey none = Unit
IsKey (some key) = key < 2 ^ 32

-- What the JSON library documents, and a file that is written and read.
pub record IsDocumented {J W : Type 0} (lib : ConfigLibrary J W) : Type 0 where
  pub empty-object : lib.is_object lib.empty_object ≡ true
  pub object-set :
      (name : Text) (v config : J)
      → lib.is_object config ≡ true
      → lib.is_object (lib.set name v config) ≡ true
  pub find-set :
      (name : Text) (v config : J)
      → lib.is_object config ≡ true
      → lib.find (lib.set name v config) name ≡ some v
  pub null-null : lib.is_null lib.null ≡ true
  pub null-number : (n : ℕ) → lib.is_null (lib.number n) ≡ false
  pub unsigned-number : (n : ℕ) → lib.is_number_unsigned (lib.number n) ≡ true
  pub uint32-number : (n : ℕ) → n < 2 ^ 32 → lib.get_uint32 (lib.number n) ≡ n
  pub exists-write :
      (config : J) (w : W)
      → (lib.write config w).0 ≡ true
      → lib.exists (lib.write config w).1 ≡ true
  pub read-write :
      (config : J) (w : W)
      → (lib.write config w).0 ≡ true
      → lib.read (lib.write config w).1 ≡ some (some config)

module _ {J W : Type 0} (lib : ConfigLibrary J W) (doc : IsDocumented lib) where
  object_or_empty-object : (o : Option (Option J)) → lib.is_object (object_or_empty lib o) ≡ true
  object_or_empty-object none = doc.empty-object
  object_or_empty-object (some none) = doc.empty-object
  object_or_empty-object (some (some config)) = elim (Bool-cases (lib.is_object config)) [
    | inl e ↦ rw e e
    | inr e ↦ rw e doc.empty-object
  ]

  load_hotkey-key_json :
      (old key : Option ℕ) → IsKey key → load_hotkey lib old (key_json lib key) ≡ (true, key)
  unfolding load_hotkey
  load_hotkey-key_json old none h = rw (doc.null-null) refl
  load_hotkey-key_json old (some n) h =
      rw (doc.null-number n, doc.unsigned-number n, doc.uint32-number n h) refl

  load_config-set :
      (old key : Option ℕ) (config : J)
      → IsKey key
      → lib.is_object config ≡ true
      → load_config lib old (lib.set (codes "hotkey") (key_json lib key) config) ≡ (true, key)
  unfolding load_config
  load_config-set old key config h o =
      rw
        (
          doc.object-set (codes "hotkey") (key_json lib key) config o,
          doc.find-set (codes "hotkey") (key_json lib key) config o,
          load_config,
        )
        (load_hotkey-key_json old key h)

  -- A file that was saved is loaded.
  load-save :
      (key other : Option ℕ) (w : W)
      → IsKey key
      → (save lib key w).0 ≡ true
      → load lib (other, (save lib key w).1) ≡ (true, (key, (save lib key w).1))
  unfolding load save
  load-save key other w h saved =
      let config = lib.set (codes "hotkey") (key_json lib key) (object_or_empty lib (lib.read w)) in
      let there = doc.exists-write config w saved in
      let content = doc.read-write config w saved in
      let loaded = load_config-set other key _ h (object_or_empty-object (lib.read w)) in
      rw (there, content, loaded) refl

  -- When the library does what it documents, and a file that was written is there and is read as it
  -- was written, a key of 32 bits, or none, that is selected with success is the key in force, and
  -- loading gives it back with success, whatever key was in force there; a selection that fails
  -- leaves the key as it was.
  pub select-load :
      (key previous other : Option ℕ) (w : W)
      → IsKey key
      → let (selected, (now, w')) = select lib key (previous, w) in
        if selected
        then (now ≡ key) × (load lib (other, w') ≡ (true, (key, w')))
        else now ≡ previous
  unfolding select
  select-load key previous other w h = elim (Bool-cases (save lib key w).0) [
    | inl e ↦ rw e (refl, load-save key other w h e)
    | inr e ↦ rw e refl
  ]
