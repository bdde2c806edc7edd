-- ===== src/SlaveTats/Sane.antt =====
-- The answers that the runtime gives to the workflow's queries.
use slavetat_ui.Base.{
  ℕ, ◌+◌, ◌≡◌, refl, arith, pos, pos_part, ◌≤ℤ◌, List, [], ◌∷◌, map, All, zero, suc,
}
use slavetat_ui.Core.Models.{TattooArea, TattooSlot, TattooSlots, Expected, ok, unexpected}
use slavetat_ui.Core.Service.{guarded, query_slots}
use slavetat_ui.Workflow.Commands.{completes_query}
use slavetat_ui.Workflow.Requests.{IsSane}
use slavetat_ui.SlaveTats.Configuration.{IniIntegerReader}
use slavetat_ui.SlaveTats.Calls.{Game, from_to}
use slavetat_ui.SlaveTats.Slots
use slavetat_ui.SlaveTats.Shown.{query_slots-IsSnapshot}
use slavetat_ui.SlaveTats.Runtime.{SlaveTatsRuntime, slave_tats, on_configuration}

from_to-natural :
    (slots : List TattooSlot) (first rounds : ℕ)
    → map (λ s. s.index) slots ≡ from_to first rounds
    → All (λ s. pos 0 ≤ℤ s.index) slots
from_to-natural [] first rounds h = tt
from_to-natural (s ∷ slots) first zero h = cc
from_to-natural (s ∷ slots) first (suc rounds) h =
    (ground (arith, h), from_to-natural slots (first + 1) rounds (cc))

-- The answer to a query has no negative index.
abbrev IsReal : Expected TattooSlots → Type 0
IsReal r = IsSane (completes_query 0 r)

pair-IsReal :
    {V : Type 0} (call p : Expected TattooSlots × V)
    → ((t : TattooSlots) (v : V) → call ≡ (ok t, v) → IsReal (ok t))
    → call ≡ p
    → IsReal p.0
pair-IsReal call (ok t, v) h e = h t v e
pair-IsReal call (unexpected x, v) h e = tt

guarded-IsReal :
    {V : Type 0} (checks : Expected (Unit {0})) (call : V → Expected TattooSlots × V) (v : V)
    → IsReal (call v).0
    → IsReal (guarded checks call v).0
guarded-IsReal (ok u) call v h = h
guarded-IsReal (unexpected e) call v h = tt

module _ {A W : Type 0} (game : Game A W) (reader : IniIntegerReader W) where
  -- Whatever the game is and the plugins return, an answer of the service over the runtime to a
  -- query of slots has no slot with a negative index; the workflow's theorems ask this of the
  -- histories that they are about.
  pub query_slots-IsSane :
      (generation actor_form_id : ℕ) (area : TattooArea) (s : SlaveTatsRuntime × W)
      → IsSane
          (completes_query generation (query_slots (slave_tats game reader) actor_form_id area s).0)
  unfolding query_slots slave_tats
  query_slots-IsSane generation actor_form_id area (r, w) =
      guarded-IsReal _ (on_configuration (Slots.query_slots game reader actor_form_id area)) (r, w)
        (pair-IsReal (Slots.query_slots game reader actor_form_id area (r.slot_configuration, w)) _
          (λ t s e.
            from_to-natural t.slots 0 (pos_part t.configured_count)
              (query_slots-IsSnapshot game reader actor_form_id area _ _ s t e).indices)
          refl)
