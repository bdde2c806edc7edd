-- ===== src/SlaveTats/Available.antt =====
-- src/runtime/SlaveTatsRuntime.cpp: the entries of the tattoos, and `queryAvailable`. The bindings that the
-- tests put in the plugins' place are left out, here and below; the service has checked that the plugins are
-- there.
use slavetat_ui.Base.{ℤ, pos, ◌==ℤ◌, zero_f, one_f, not, if◌then◌else◌, Text, codes, List, [], map}
use slavetat_ui.Core.Models.{TattooEntry, default_entry, query_available_failed}
use slavetat_ui.SlaveTats.JContainers.{map_get_str, map_get_int, map_get_flt}
use slavetat_ui.SlaveTats.Calls.{
  Game, Action, ◌>>=◌, ◌>>◌, call, read, fail_if, inverted_alpha, new_array, guard_pool, array_objs,
}

module _ {A W : Type 0} (game : Game A W) where
  -- What an entry has from its map, where it is read in the same way twice.
  unfoldable pub entry_of_map : ℤ → W → TattooEntry → TattooEntry
  unfolding map_get_str map_get_int map_get_flt
  entry_of_map handle w entry =
      let raw_color = map_get_int game.jc handle (codes "color") (pos 0) w in
      record entry {
        runtime_handle = handle;
        section = map_get_str game.jc handle (codes "section") [] w;
        name = map_get_str game.jc handle (codes "name") [] w;
        texture_path = map_get_str game.jc handle (codes "texture") [] w;
        color = if raw_color ==ℤ pos 0 then pos 0xFFFFFF else raw_color;
        locked = not (map_get_int game.jc handle (codes "locked") (pos 0) w ==ℤ pos 0);
        alpha = inverted_alpha game (map_get_flt game.jc handle (codes "invertedAlpha") zero_f w);
        glow = map_get_int game.jc handle (codes "glow") (pos 0) w;
        glossiness = map_get_flt game.jc handle (codes "glossiness") zero_f w;
        specular_strength = map_get_flt game.jc handle (codes "specularStrength") zero_f w;
        bump = map_get_str game.jc handle (codes "bump") [] w;
        glow_texture = map_get_str game.jc handle (codes "glowTexture") [] w;
        emissive_mult = map_get_flt game.jc handle (codes "emissiveMult") one_f w;
      }

  unfoldable pub available_entry : Text → W → ℤ → TattooEntry
  unfolding entry_of_map map_get_str map_get_int
  available_entry domain w handle = entry_of_map handle w (record default_entry {
    domain = domain;
    area = map_get_str game.jc handle (codes "area") [] w;
    slot = map_get_int game.jc handle (codes "slot") (pos 0) w;
  })

  unfoldable pub query_available : Text → Action W (List TattooEntry)
  unfolding new_array array_objs available_entry
  query_available domain = do
    matches ← call (new_array game (codes "SlaveTatsUI-queryAvailable"))
    guard_pool game (codes "SlaveTatsUI-queryAvailable") do
      fail_if (game.api.query_available_tattoos matches domain) query_available_failed
          "query_available_tattoos failed"
      read λ w. map (available_entry domain w) (array_objs game matches w)
