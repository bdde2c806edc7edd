-- ===== src/SlaveTats/Backend.antt =====
-- src/runtime/SlaveTatsRuntime.cpp: `SlaveTatsAppearanceBackend` and `updateAppearance`.
use slavetat_ui.Base.{ℤ, pos, Bool, true, false, not, codes, List}
use slavetat_ui.Core.Models.{
  UpdateTattooAppearanceRequest, UpdateTattooAppearanceSuccess, update_failed,
}
use slavetat_ui.Appearance.{IUpdateTattooAppearanceBackend, update_tattoo_appearance}
use slavetat_ui.SlaveTats.JContainers.{
  map_set_int_and_verify, map_set_flt_and_verify, form_set_int_and_verify,
}
use slavetat_ui.SlaveTats.Calls.{
  Game, Action, ◌>>=◌, ◌>>◌, call, read, fail_if, inverted_alpha, new_array, guard_pool, array_objs,
}

-- The next write, if the last one was verified.
abbrev pub and_then : {W : Type 0} → (W → Bool × W) → Bool × W → Bool × W
and_then f (true, w) = f w
and_then f (false, w) = (false, w)

module _ {A W : Type 0} (game : Game A W) where
  -- `SlaveTatsAppearanceBackend`.
  unfoldable pub query_applied_tattoo_handles : A → Action W (List ℤ)
  unfolding new_array array_objs
  query_applied_tattoo_handles actor = do
    matches ← call (new_array game (codes "SlaveTatsUI-updateAppearance"))
    guard_pool game (codes "SlaveTatsUI-updateAppearance") do
      fail_if (game.api.query_applied_tattoos actor matches) update_failed
          "query_applied_tattoos failed"
      read (array_objs game matches)

  unfoldable pub write_appearance : ℤ → UpdateTattooAppearanceRequest → W → Bool × W
  unfolding map_set_int_and_verify map_set_flt_and_verify
  write_appearance handle r w =
      let set_int = map_set_int_and_verify game.jc handle in
      let set_flt = map_set_flt_and_verify game.jc handle in
      and_then (set_flt (codes "emissiveMult") r.emissive_mult) (
        and_then (set_flt (codes "specularStrength") r.specular_strength) (
          and_then (set_flt (codes "glossiness") r.glossiness) (
            and_then (set_int (codes "glow") r.glow) (
              and_then (set_flt (codes "invertedAlpha") (inverted_alpha game r.alpha))
                (set_int (codes "color") r.color w)))))

  unfoldable pub backend : IUpdateTattooAppearanceBackend W A
  unfolding query_applied_tattoo_handles write_appearance form_set_int_and_verify
  backend = record {
    resolve_actor = λ actor_form_id w. (game.lookup_actor actor_form_id w, w);
    query_applied_tattoo_handles = query_applied_tattoo_handles;
    write_appearance = write_appearance;
    mark_actor_updated =
        λ actor. form_set_int_and_verify game.jc actor (codes ".SlaveTats.updated") (pos 1);
    synchronize =
        λ actor w. let (failed, w') = game.api.synchronize_tattoos actor w in (not failed, w');
  }

  unfoldable pub update_appearance :
      UpdateTattooAppearanceRequest → Action W UpdateTattooAppearanceSuccess
  unfolding update_tattoo_appearance backend
  update_appearance request = update_tattoo_appearance backend request
