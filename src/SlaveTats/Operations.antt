-- ===== src/SlaveTats/Operations.antt =====
-- src/runtime/SlaveTatsRuntime.cpp: `applyToSlot` and `removeFromSlot`.
use slavetat_ui.Base.{
  ℤ, pos, ◌==ℤ◌, ◌&&◌, if◌then◌else◌, Text, codes, eq_text, String, List, [], ◌∷◌,
}
use slavetat_ui.Core.Models.{
  ApplyTattooRequest, ApplyTattooSuccess, RemoveTattooRequest, RemoveTattooSuccess,
  RemoveTattooMode, external_slot, tattoo_not_found, apply_failed, remove_failed,
  synchronize_failed,
}
use slavetat_ui.SlaveTats.JContainers.{map_get_str, form_set_int}
use slavetat_ui.SlaveTats.Calls.{
  Game, Action, ◌>>=◌, ◌>>◌, pure, call, change, read, stop_if, fail_if, new_array, guard_pool,
  array_objs, query_external_slots, with_appearance, contains_int,
}
use slavetat_ui.SlaveTats.Slots.{find_actor}

module _ {A W : Type 0} (game : Game A W) where
  -- The last part of an operation on a slot: the actor is marked, and its overlays are synchronized.
  unfoldable pub synchronize : String → A → Action W (Unit {0})
  unfolding form_set_int
  synchronize message actor = do
    change (form_set_int game.jc actor (codes ".SlaveTats.updated") (pos 1))
    fail_if (game.api.synchronize_tattoos actor) synchronize_failed message

  -- The first candidate of the section and the name, or 0.
  unfoldable pub first_match : Text → Text → List ℤ → W → ℤ
  unfolding map_get_str
  first_match section name [] w = pos 0
  first_match section name (candidate ∷ candidates) w =
      let later = first_match section name candidates w in
      if eq_text (map_get_str game.jc candidate (codes "section") [] w) section
        && eq_text (map_get_str game.jc candidate (codes "name") [] w) name
      then candidate
      else later

  -- `applyToSlot` once the template is there.
  unfoldable pub apply_template : ApplyTattooRequest → A → ℤ → Action W ApplyTattooSuccess
  unfolding with_appearance synchronize
  apply_template r actor tattoo = do
    applied ← call (
        with_appearance game tattoo r.color r.alpha
          (game.api.add_and_get_tattoo actor tattoo r.slot))
    stop_if (applied ==ℤ pos 0) apply_failed "Failed to apply tattoo to slot"
    synchronize "Tattoo applied but synchronization failed" actor
    pure (record {
      actor_form_id = r.actor_form_id;
      area = r.area;
      slot = r.slot;
      section = r.section;
      name = r.name;
    })

  -- `applyToSlot` once the array is there for the tattoos that are available.
  unfoldable pub apply_available : ApplyTattooRequest → A → ℤ → Action W ApplyTattooSuccess
  unfolding array_objs first_match apply_template
  apply_available r actor available = do
    fail_if (game.api.query_available_tattoos available r.domain) apply_failed
        "query_available_tattoos failed"
    tattoo ← read λ w. first_match r.section r.name (array_objs game available w) w
    stop_if (tattoo ==ℤ pos 0) tattoo_not_found "Tattoo not found in available list"
    apply_template r actor tattoo

  unfoldable pub check_external : A → Text → ℤ → Text → Action W (Unit {0})
  unfolding query_external_slots
  check_external actor area slot pool = do
    external ← query_external_slots game actor area pool
    stop_if (contains_int external slot) external_slot "Slot is occupied by an external overlay"

  unfoldable pub apply_to_slot : ApplyTattooRequest → Action W ApplyTattooSuccess
  unfolding find_actor check_external new_array apply_available
  apply_to_slot r = do
    found ← find_actor game r.actor_form_id r.area
    check_external found.0 found.1 r.slot (codes "SlaveTatsUI-applyExternal")
    available ← call (new_array game (codes "SlaveTatsUI-applyAvailable"))
    guard_pool game (codes "SlaveTatsUI-applyAvailable") (apply_available r found.0 available)

  -- What `removeFromSlot` does before it synchronizes, by its mode.
  unfoldable pub remove_first :
      RemoveTattooRequest → A → Text → RemoveTattooMode → Action W (Unit {0})
  unfolding check_external
  remove_first r actor area RemoveTattooMode.synchronize_only = pure tt
  remove_first r actor area RemoveTattooMode.remove_and_synchronize = do
    check_external actor area r.slot (codes "SlaveTatsUI-removeExternal")
    fail_if (game.api.remove_tattoo_from_slot actor area r.slot) remove_failed
        "Failed to remove tattoo from slot"

  unfoldable pub remove_from_slot : RemoveTattooRequest → Action W RemoveTattooSuccess
  unfolding find_actor remove_first synchronize
  remove_from_slot r = do
    found ← find_actor game r.actor_form_id r.area
    remove_first r found.0 found.1 r.mode
    synchronize "Tattoo removed but synchronization failed" found.0
    pure (record { actor_form_id = r.actor_form_id; area = r.area; slot = r.slot })
