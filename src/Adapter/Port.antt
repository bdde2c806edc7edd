-- ===== src/Adapter/Port.antt =====
-- `OfficialMenuFrameworkAdapter` as the port of the menu: the functions of the framework that were found, and
-- the section. The framework acts on a world `W`; a window is the address of an object.
use slavetat_ui.Base.{
  ℕ, ◌==◌, ◌++◌, Float, zero_f, Bool, false, not, ◌&&◌, ◌⊎◌, inl, inr, if◌then◌else◌, Text, codes,
  is_empty, is_some, Option, none, some,
}
use slavetat_ui.Menu.{
  MenuRegistrationError, missing_export, window_creation_failed, MenuFrameworkPort,
}

-- A function that was not found is `none`.
pub record MenuFrameworkBindings (W : Type 0) : Type 0 where
  pub get_version : Option (W → Float)
  pub add_section_item : Option (Text → W → W)
  pub add_window : Option (W → ℕ × W)
  pub set_window_open : Option (ℕ → Bool → W → W)
  pub is_window_open : Option (ℕ → W → Bool)
  pub set_window_blocking : Option (ℕ → Bool → W → W)

-- The section of the adapter, and the world of the framework.
abbrev pub AdapterState : Type 0 → Type 0
AdapterState W = Text × W

module _ {W : Type 0} (bindings : MenuFrameworkBindings W) where
  abbrev pub is_available : AdapterState W → Bool
  is_available s =
      is_some bindings.get_version
      && is_some bindings.add_section_item
      && is_some bindings.add_window
      && is_some bindings.set_window_open
      && is_some bindings.is_window_open
      && is_some bindings.set_window_blocking

  unfoldable pub framework_version : AdapterState W → Float
  framework_version (section, w) = elim bindings.get_version [
    | none ↦ zero_f
    | some get_version ↦ get_version w
  ]

  unfoldable pub set_section_path :
      Text → AdapterState W → Option MenuRegistrationError × AdapterState W
  set_section_path section s =
      if not (is_available s) then (some missing_export, s) else (none, (section, s.1))

  unfoldable pub add_section_item_path :
      Text → AdapterState W → Option MenuRegistrationError × AdapterState W
  add_section_item_path path (section, w) = elim bindings.add_section_item [
    | none ↦ (some missing_export, (section, w))
    | some add ↦
        if is_empty section
        then (some missing_export, (section, w))
        else (none, (section, add (section ++ (codes "/" ++ path)) w))
  ]

  -- `addWindow`, once both of its functions are there.
  abbrev pub added_window :
      (ℕ → Bool → W → W) → Bool → Text → ℕ × W → (MenuRegistrationError ⊎ ℕ) × AdapterState W
  added_window set_blocking pause_game section (window, w) =
      if window == 0
      then (inl window_creation_failed, (section, w))
      else (inr window, (section, set_blocking window pause_game w))

  unfoldable pub add_blocking_window :
      Bool → AdapterState W → (MenuRegistrationError ⊎ ℕ) × AdapterState W
  add_blocking_window pause_game (section, w) = elim bindings.add_window [
    | none ↦ (inl missing_export, (section, w))
    | some add ↦ elim bindings.set_window_blocking [
      | none ↦ (inl missing_export, (section, w))
      | some set_blocking ↦ added_window set_blocking pause_game section (add w)
    ]
  ]

  unfoldable pub set_window : ℕ → Bool → AdapterState W → AdapterState W
  set_window window value (section, w) = elim bindings.set_window_open [
    | none ↦ (section, w)
    | some set ↦ if not (window == 0) then (section, set window value w) else (section, w)
  ]

  unfoldable pub is_window : ℕ → AdapterState W → Bool
  is_window window (section, w) = elim bindings.is_window_open [
    | none ↦ false
    | some is_open ↦ not (window == 0) && is_open window w
  ]

  abbrev pub adapter_port : MenuFrameworkPort (AdapterState W)
  adapter_port = record {
    available = is_available;
    version = framework_version;
    set_section = set_section_path;
    add_section_item = add_section_item_path;
    add_window = add_blocking_window;
    set_window_open = set_window;
    is_window_open = is_window;
  }
