-- ===== src/Menu/Laws.antt =====
-- The menu, over every use.
use slavetat_ui.Base.{
  ℕ, ◌==◌, ◌≡◌, refl, arith, Bool, true, false, not, ◌&&◌, Bool-cases, Option-cases, lt_f, le_f,
  ◌||◌, codes, ◌⊎◌, inl, inr, List, [], ◌∷◌, Option, none, some,
}
use slavetat_ui.Menu.{
  MenuRegistrationError, MenuFrameworkPort, NativeMenu, new_menu, LaunchFunction, RenderFunction,
  version_3, version_4, after_item, after_window, after_section, register_menu, set_open, is_open,
  toggle, handle_framework_hotkey, section_callback, render_callback,
}

-- A menu is registered exactly if it has a port, and exactly if it has a window.
pub record IsBound (m : NativeMenu) : Type 0 where
  pub port : m.port ≡ m.registered
  pub window : m.registered ≡ not (m.window == 0)

-- What the plugin and the framework do with the menu.
pub data Use (W : Type 0) : Type 0 where
  registers : Use W
  opens : Bool → Use W
  toggles : Use W
  presses : Bool → Bool → Bool → Use W
  selects : Option (LaunchFunction W) → Use W
  renders : Option (RenderFunction W) → Use W

module _ {W : Type 0} (port : MenuFrameworkPort W) where
  unfoldable pub act : Use W → NativeMenu × W → NativeMenu × W
  unfolding register_menu set_open toggle handle_framework_hotkey section_callback render_callback
  act registers (m, w) = (register_menu port m w).1
  act (opens value) (m, w) = (m, set_open port value m w)
  act toggles (m, w) = (m, toggle port m w)
  act (presses is_keyboard is_down matches_binding) (m, w) =
      (m, (handle_framework_hotkey port is_keyboard is_down matches_binding m w).1)
  act (selects launch) s = section_callback port launch s
  act (renders render) s = render_callback port render s

  unfoldable pub act_all : List (Use W) → NativeMenu × W → NativeMenu × W
  unfolding act
  act_all [] s = s
  act_all (u ∷ us) s = act_all us (act u s)

  after_item-IsBound :
      (window : ℕ) (m : NativeMenu) (p : Option MenuRegistrationError × W)
      → (window == 0) ≡ false
      → IsBound m
      → IsBound (after_item port window m p).1.0
  unfolding after_item
  after_item-IsBound window m (some e, w) n h = record { port = h.port; window = h.window }
  after_item-IsBound window m (none, w) n h = record { port = refl; window = rw n refl }

  after_window-IsBound :
      (m : NativeMenu) (p : (MenuRegistrationError ⊎ ℕ) × W)
      → IsBound m
      → IsBound (after_window port m p).1.0
  unfolding after_window
  after_window-IsBound m (inl e, w) h = record { port = h.port; window = h.window }
  after_window-IsBound m (inr window, w) h = elim (Bool-cases (window == 0)) [
    | inl z ↦ rw (z, after_window) (record { port = h.port; window = h.window })
    | inr z ↦ rw (z, after_window) (after_item-IsBound window m _ z h)
  ]

  after_section-IsBound :
      (m : NativeMenu) (p : Option MenuRegistrationError × W)
      → IsBound m
      → IsBound (after_section port m p).1.0
  unfolding after_section
  after_section-IsBound m (some e, w) h = record { port = h.port; window = h.window }
  after_section-IsBound m (none, w) h = after_window-IsBound m (port.add_window true w) h

  register_menu-IsBound :
      (m : NativeMenu) (w : W) → IsBound m → IsBound (register_menu port m w).1.0
  unfolding register_menu
  register_menu-IsBound m w h = elim (Bool-cases m.registered) [
    | inl r ↦ simp (r, register_menu) h
    | inr r ↦ elim (Bool-cases (port.available w)) [
      | inr a ↦
          rw (r, a, register_menu)
            (record { port = ground (arith, h.port); window = ground (arith, h.window) })
      | inl a ↦
          elim (Bool-cases (lt_f (port.version w) version_3 || le_f version_4 (port.version w))) [
            | inl v ↦
                rw (r, a, v, register_menu)
                  (record { port = ground (arith, h.port); window = ground (arith, h.window) })
            | inr v ↦
                simp (r, a, v, register_menu)
                  (after_section-IsBound m (port.set_section (codes "SlaveTatsUI") w) h)
          ]
    ]
  ]

  act-IsBound : (u : Use W) (s : NativeMenu × W) → IsBound s.0 → IsBound (act u s).0
  unfolding act section_callback render_callback
  act-IsBound registers (m, w) h = register_menu-IsBound m w h
  act-IsBound (opens value) (m, w) h = h
  act-IsBound toggles (m, w) h = h
  act-IsBound (presses is_keyboard is_down matches_binding) (m, w) h = h
  act-IsBound (selects none) (m, w) h = h
  act-IsBound (selects (some launch)) (m, w) h = elim (Option-cases (launch w).0) [
    | inl e ↦ rw (e, act, section_callback) (record { port = h.port; window = h.window })
    | inr (ready, e) ↦ rw (e, act, section_callback) h
  ]
  act-IsBound (renders none) (m, w) h = h
  act-IsBound (renders (some render)) (m, w) h = elim (Bool-cases (render m w).0) [
    | inl e ↦ rw (e, act, section_callback) (record { port = h.port; window = h.window })
    | inr e ↦ rw e h
  ]

  act_all-IsBound :
      (us : List (Use W)) (s : NativeMenu × W) → IsBound s.0 → IsBound (act_all us s).0
  unfolding act_all
  act_all-IsBound [] s h = h
  act_all-IsBound (u ∷ us) s h = act_all-IsBound us (act u s) (act-IsBound u s h)

  toggle-flips :
      (m : NativeMenu) (w : W)
      → ((window : ℕ) (value : Bool) (v : W)
          → (window == 0) ≡ false
          → port.is_window_open window (port.set_window_open window value v) ≡ value)
      → IsBound m
      → is_open port m (toggle port m w) ≡ (m.registered && not (is_open port m w))
  unfolding is_open toggle set_open
  toggle-flips m w d h = ground (arith, h.port, h.window, d m.window true w, d m.window false w)

  -- After any use of a new menu (registering, opening and closing, the key, the callbacks) the key
  -- that is bound opens a window that is closed and closes one that is open, if the menu is
  -- registered, and otherwise leaves it closed; provided that the framework's windows are as they
  -- were set last.
  pub hotkey-flips :
      (us : List (Use W)) (w : W)
      → ((window : ℕ) (value : Bool) (v : W)
          → (window == 0) ≡ false
          → port.is_window_open window (port.set_window_open window value v) ≡ value)
      → let (m, w') = act_all us (new_menu, w) in
        is_open port m (handle_framework_hotkey port true true true m w').1
        ≡ (m.registered && not (is_open port m w'))
  unfolding handle_framework_hotkey
  hotkey-flips us w d =
      toggle-flips _ _ d (act_all-IsBound us (new_menu, w) (record { port = refl; window = refl }))
