-- ===== src/Menu.antt =====
-- src/native/NativeMenu.{h,cpp} and MenuFrameworkPort.h: the registration of the window, and the key that
-- opens it. The menu is the active one. The framework's port acts on a world `W`.
use slavetat_ui.Base.{
  ℕ, ◌==◌, Float, fin, pos, ◌^◌, ◌*◌, lt_f, le_f, Bool, true, false, not, ◌&&◌, ◌||◌, ◌⊎◌, inl, inr,
  if◌then◌else◌, Text, codes, Option, none, some,
}
pub mod Laws

pub data MenuRegistrationError : Type 0 where
  unavailable unsupported_version missing_export window_creation_failed callback_failed :
      MenuRegistrationError

-- Registering and adding give an error, if there is one.
pub record MenuFrameworkPort (W : Type 0) : Type 0 where
  pub available : W → Bool
  pub version : W → Float
  pub set_section : Text → W → Option MenuRegistrationError × W
  pub add_section_item : Text → W → Option MenuRegistrationError × W
  pub add_window : Bool → W → (MenuRegistrationError ⊎ ℕ) × W
  pub set_window_open : ℕ → Bool → W → W
  pub is_window_open : ℕ → W → Bool

-- `port` is whether the pointer to the port is there.
pub record NativeMenu : Type 0 where
  pub port : Bool
  pub window : ℕ
  pub last_error : Option MenuRegistrationError
  pub registered : Bool

abbrev pub new_menu : NativeMenu
new_menu = record { port = false; window = 0; last_error = none; registered = false }

-- What a function of the user does: `none` if it throws.
abbrev pub LaunchFunction : Type 0 → Type 0
LaunchFunction W = W → Option Bool × W

-- The Boolean is whether it throws. Of the menu's methods it may call those that open and close.
abbrev pub RenderFunction : Type 0 → Type 0
RenderFunction W = NativeMenu → W → Bool × W

-- The versions 3 and 4.
abbrev pub version_3 : Float
version_3 = fin (pos (3 * 2 ^ 149))

abbrev pub version_4 : Float
version_4 = fin (pos (4 * 2 ^ 149))

-- A registration: the error, if it fails.
abbrev pub Registered : Type 0 → Type 0
Registered W = Option MenuRegistrationError × (NativeMenu × W)

abbrev pub fail_menu : {W : Type 0} → MenuRegistrationError → NativeMenu → W → Registered W
fail_menu e m w = (some e, (record m { last_error = some e }, w))

module _ {W : Type 0} (port : MenuFrameworkPort W) where
  unfoldable pub after_item : ℕ → NativeMenu → Option MenuRegistrationError × W → Registered W
  after_item window m (some e, w) = fail_menu e m w
  after_item window m (none, w) =
      (none, (record { port = true; window = window; last_error = none; registered = true }, w))

  unfoldable pub after_window : NativeMenu → (MenuRegistrationError ⊎ ℕ) × W → Registered W
  unfolding after_item
  after_window m (inl e, w) = fail_menu e m w
  after_window m (inr window, w) =
      if window == 0
      then fail_menu window_creation_failed m w
      else after_item window m (port.add_section_item (codes "Tattoo Browser") w)

  unfoldable pub after_section : NativeMenu → Option MenuRegistrationError × W → Registered W
  unfolding after_window
  after_section m (some e, w) = fail_menu e m w
  after_section m (none, w) = after_window m (port.add_window true w)

  unfoldable pub register_menu : NativeMenu → W → Registered W
  unfolding after_section
  register_menu m w =
      if m.registered
      then (none, (m, w))
      else if not (port.available w)
      then fail_menu unavailable m w
      else if lt_f (port.version w) version_3 || le_f version_4 (port.version w)
      then fail_menu unsupported_version m w
      else after_section m (port.set_section (codes "SlaveTatsUI") w)

  unfoldable pub set_open : Bool → NativeMenu → W → W
  set_open value m w =
      if m.port && not (m.window == 0) then port.set_window_open m.window value w else w

  unfoldable pub is_open : NativeMenu → W → Bool
  is_open m w = m.port && not (m.window == 0) && port.is_window_open m.window w

  unfoldable pub toggle : NativeMenu → W → W
  unfolding set_open is_open
  toggle m w =
      if is_open m w then set_open false m w else if m.registered then set_open true m w else w

  unfoldable pub handle_framework_hotkey : Bool → Bool → Bool → NativeMenu → W → Bool × W
  unfolding toggle
  handle_framework_hotkey is_keyboard is_down matches_binding m w =
      if not is_keyboard || not is_down || not matches_binding
      then (false, w)
      else (true, toggle m w)

  -- `sectionCallback`, on the active menu.
  unfoldable pub section_callback : Option (LaunchFunction W) → NativeMenu × W → NativeMenu × W
  unfolding set_open
  section_callback none (m, w) = (m, w)
  section_callback (some launch) (m, w) =
      let (launched, w') = launch w in
      elim launched [
        | none ↦ (record m { last_error = some callback_failed }, w')
        | some ready ↦ (m, if ready then set_open true m w' else w')
      ]

  -- `renderCallback`, on the active menu.
  unfoldable pub render_callback : Option (RenderFunction W) → NativeMenu × W → NativeMenu × W
  render_callback none (m, w) = (m, w)
  render_callback (some render) (m, w) =
      let (throws, w') = render m w in
      (if throws then record m { last_error = some callback_failed } else m, w')
