-- ===== src/Adapter/Opening.antt =====
-- The key that opens the menu, through the adapter.
use slavetat_ui.Base.{ℕ, ◌≡◌, Bool, true, not, ◌&&◌, Text, List, some}
use slavetat_ui.Menu.{new_menu, is_open, handle_framework_hotkey}
use slavetat_ui.Menu.Laws.{Use, act_all, hotkey-flips}
use slavetat_ui.Adapter.Port.{
  MenuFrameworkBindings, AdapterState, set_window, is_window, adapter_port,
}

module _ {W : Type 0} (bindings : MenuFrameworkBindings W) where
  -- With the adapter as the port, and the framework's functions that open a window and tell whether
  -- it is open found: after any use of a new menu (registering, opening and closing, the key, the
  -- callbacks) the key that is bound opens a window that is closed and closes one that is open, if
  -- the menu is registered, and otherwise leaves it closed; provided that the framework's windows
  -- are as they were set last.
  pub adapter_hotkey-flips :
      (set : ℕ → Bool → W → W) (shows : ℕ → W → Bool)
      → bindings.set_window_open ≡ some set
      → bindings.is_window_open ≡ some shows
      → ((window : ℕ) (value : Bool) (v : W) → shows window (set window value v) ≡ value)
      → (us : List (Use (AdapterState W))) (section : Text) (w : W)
      → let port = adapter_port bindings in
        let (m, s) = act_all port us (new_menu, (section, w)) in
        is_open port m (handle_framework_hotkey port true true true m s).1
        ≡ (m.registered && not (is_open port m s))
  unfolding set_window is_window
  adapter_hotkey-flips set shows sets opens kept us section w =
      hotkey-flips (adapter_port bindings) us (section, w)
        (λ window value v e. rw (sets, opens, e) (kept window value v.1))
