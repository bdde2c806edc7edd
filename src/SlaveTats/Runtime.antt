-- ===== src/SlaveTats/Runtime.antt =====
-- src/runtime/SlaveTatsRuntime.{h,cpp}: the object, and `ITattooRuntime` as it implements it. The pointer to
-- SlaveTatsNG's functions is whether it is bound; what it points to is the parameter `game`.
use slavetat_ui.Base.{ℕ, Bool, true, false, Option, none, some}
use slavetat_ui.Core.Runtime.{ITattooRuntime}
use slavetat_ui.SlaveTats.Configuration.{OverlayCounts, IniIntegerReader, new_counts}
use slavetat_ui.SlaveTats.Calls.{Game, Action}
use slavetat_ui.SlaveTats.Available.{query_available}
use slavetat_ui.SlaveTats.Slots.{query_slots}
use slavetat_ui.SlaveTats.Operations.{apply_to_slot, remove_from_slot}
use slavetat_ui.SlaveTats.Backend.{update_appearance}

pub record SlaveTatsRuntime : Type 0 where
  pub api : Bool
  pub api_version : ℕ
  pub jcontainers_ready : Bool
  pub slot_configuration : OverlayCounts

abbrev pub new_runtime : SlaveTatsRuntime
new_runtime = record {
  api = false;
  api_version = 0;
  jcontainers_ready = false;
  slot_configuration = new_counts;
}

-- The argument is the version of the functions, if the pointer is not null.
unfoldable pub bind_slave_tats : Option ℕ → SlaveTatsRuntime → SlaveTatsRuntime
bind_slave_tats none r = record r { api = false; api_version = 0 }
bind_slave_tats (some version) r = record r { api = true; api_version = version }

unfoldable pub note_version_mismatch : ℕ → SlaveTatsRuntime → SlaveTatsRuntime
note_version_mismatch version r = record r { api = false; api_version = version }

-- The argument is the result of `Init`, if the root is not null.
unfoldable pub bind_jcontainers : Option Bool → SlaveTatsRuntime → Bool × SlaveTatsRuntime
bind_jcontainers none r = (false, record r { jcontainers_ready = false })
bind_jcontainers (some ready) r = (ready, record r { jcontainers_ready = ready })

-- A call that leaves the object alone, and one that uses its configuration.
abbrev pub on_game : {W X : Type 0} → Action W X → Action (SlaveTatsRuntime × W) X
on_game m (r, w) = let (x, w') = m w in (x, (r, w'))

abbrev pub on_configuration :
    {W X : Type 0} → Action (OverlayCounts × W) X → Action (SlaveTatsRuntime × W) X
on_configuration m (r, w) =
    let (x, (c, w')) = m (r.slot_configuration, w) in (x, (record r { slot_configuration = c }, w'))

unfoldable pub slave_tats :
    {A W : Type 0} → Game A W → IniIntegerReader W → ITattooRuntime (SlaveTatsRuntime × W)
slave_tats game reader = record {
  api_available = λ s. s.0.api;
  jcontainers_ready = λ s. s.0.jcontainers_ready;
  query_available = λ domain. on_game (query_available game domain);
  query_slots = λ actor_form_id area. on_configuration (query_slots game reader actor_form_id area);
  apply_to_slot = λ request. on_game (apply_to_slot game request);
  remove_from_slot = λ request. on_game (remove_from_slot game request);
  update_appearance = λ request. on_game (update_appearance game request);
}
