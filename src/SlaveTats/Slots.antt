-- ===== src/SlaveTats/Slots.antt =====
-- src/runtime/SlaveTatsRuntime.cpp: `querySlots`.
use slavetat_ui.Base.{
  ℕ, ◌+◌, ℤ, pos, pos_part, ◌==ℤ◌, not, if◌then◌else◌, Text, codes, List, [], ◌∷◌, none, some, zero,
  suc,
}
use slavetat_ui.Core.Models.{
  TattooEntry, default_entry, TattooArea, TattooSlot, TattooSlots, SlotOccupancy, actor_not_found,
  invalid_area, Expected, ok, unexpected,
}
use slavetat_ui.SlaveTats.JContainers.{map_get_str}
use slavetat_ui.SlaveTats.Configuration.{OverlayCounts, IniIntegerReader, count}
use slavetat_ui.SlaveTats.Calls.{
  Game, Action, ◌>>=◌, pure, read, some_or, area_name, query_external_slots, contains_int,
}
use slavetat_ui.SlaveTats.Available.{entry_of_map}

module _ {A W : Type 0} (game : Game A W) where
  unfoldable pub applied_entry : Text → ℤ → W → ℤ → TattooEntry
  unfolding entry_of_map map_get_str
  applied_entry area slot w tattoo = entry_of_map game tattoo w (record default_entry {
    domain = map_get_str game.jc tattoo (codes "domain") (codes "default") w;
    area = area;
    slot = slot;
  })

  -- The slot, once SlaveTatsNG has given the tattoo in it.
  unfoldable pub slot_of : Text → List ℤ → ℤ → W → ℤ → TattooSlot
  unfolding applied_entry
  slot_of area external slot w tattoo =
      if not (tattoo ==ℤ pos 0)
      then record {
        index = slot;
        occupancy = SlotOccupancy.slave_tats;
        tattoo = some (applied_entry area slot w tattoo);
      }
      else if contains_int external slot
      then record { index = slot; occupancy = SlotOccupancy.external; tattoo = none }
      else record { index = slot; occupancy = SlotOccupancy.empty; tattoo = none }

  -- The loop over the slots: the next one, and how many are left.
  unfoldable pub read_slots : A → Text → List ℤ → ℕ → ℕ → W → List TattooSlot × W
  unfolding slot_of
  read_slots actor area external slot zero w = ([], w)
  read_slots actor area external slot (suc rounds) w =
      let (tattoo, w1) = game.api.get_applied_tattoo_in_slot actor area (pos slot) w in
      let (slots, w2) = read_slots actor area external (slot + 1) rounds w1 in
      (slot_of area external (pos slot) w1 tattoo ∷ slots, w2)

  -- The actor and the area's name that the operations on slots begin with.
  unfoldable pub find_actor : ℕ → TattooArea → Action W (A × Text)
  find_actor actor_form_id area = do
    found ← read (game.lookup_actor actor_form_id)
    actor ← some_or found actor_not_found "Actor not found"
    name ← some_or (area_name area) invalid_area "Invalid tattoo area"
    pure (actor, name)

  -- `querySlots`, once the external slots are there.
  unfoldable pub slots_of_actor :
      IniIntegerReader W
      → ℕ
      → TattooArea
      → OverlayCounts
      → Expected (A × Text × List ℤ) × W
      → Expected TattooSlots × (OverlayCounts × W)
  unfolding count read_slots
  slots_of_actor reader actor_form_id area c (unexpected e, w) = (unexpected e, (c, w))
  slots_of_actor reader actor_form_id area c (ok (actor, name, external), w) =
      let (configured, (c', w1)) = count reader area (c, w) in
      let (slots, w2) = read_slots actor name external 0 (pos_part configured) w1 in
      (
        ok (record {
          actor_form_id = actor_form_id;
          area = area;
          configured_count = configured;
          slots = slots;
        }),
        (c', w2),
      )

  unfoldable pub find_external : ℕ → TattooArea → Action W (A × Text × List ℤ)
  unfolding find_actor query_external_slots
  find_external actor_form_id area = do
    found ← find_actor actor_form_id area
    external ← query_external_slots game found.0 found.1 (codes "SlaveTatsUI-querySlotsExternal")
    pure (found.0, found.1, external)

  unfoldable pub query_slots :
      IniIntegerReader W → ℕ → TattooArea → Action (OverlayCounts × W) TattooSlots
  unfolding slots_of_actor find_external
  query_slots reader actor_form_id area (c, w) =
      slots_of_actor reader actor_form_id area c (find_external actor_form_id area w)
