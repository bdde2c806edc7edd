-- ===== src/Appearance.antt =====
-- src/runtime/UpdateTattooAppearanceOrchestration.{h,cpp} and AppliedTattooHandleMembership.h: the calls
-- that change a tattoo's appearance, in order.
use slavetat_ui.Base.{
  ℕ, ◌&&◌, not, Bool, true, false, if◌then◌else◌, ℤ, pos, ◌==ℤ◌, any_of, List, Option, none, some,
}
use slavetat_ui.Core.Models.{
  UpdateTattooAppearanceMode, UpdateTattooAppearanceRequest, UpdateTattooAppearanceSuccess,
  actor_not_found, stale_tattoo_handle, update_failed, synchronize_failed, Expected, ok, unexpected,
  fail,
}
pub mod Outcomes
pub mod After

-- The calls of the game and its plugins, on a world `W`. An actor's handle is an `A`, or null.
pub record IUpdateTattooAppearanceBackend (W A : Type 0) : Type 0 where
  pub resolve_actor : ℕ → W → Option A × W
  pub query_applied_tattoo_handles : A → W → Expected (List ℤ) × W
  pub write_appearance : ℤ → UpdateTattooAppearanceRequest → W → Bool × W
  pub mark_actor_updated : A → W → Bool × W
  pub synchronize : A → W → Bool × W

unfoldable pub contains_applied_tattoo_handle : List ℤ → ℤ → Bool
contains_applied_tattoo_handle handles candidate =
    not (candidate ==ℤ pos 0) && any_of (λ handle. handle ==ℤ candidate) handles

module _ {W A : Type 0} (backend : IUpdateTattooAppearanceBackend W A)
    (request : UpdateTattooAppearanceRequest) where
  finish : Bool × W → Expected UpdateTattooAppearanceSuccess × W
  finish (true, w) = (
    ok (record { actor_form_id = request.actor_form_id; runtime_handle = request.runtime_handle }),
    w,
  )
  finish (false, w) = (
    fail synchronize_failed (elim request.mode [
      | UpdateTattooAppearanceMode.update_and_synchronize ↦
          "Tattoo appearance changed but synchronization failed"
      | UpdateTattooAppearanceMode.synchronize_only ↦ "Tattoo synchronization failed"
    ]),
    w,
  )

  after_mark : A → Bool × W → Expected UpdateTattooAppearanceSuccess × W
  unfolding finish
  after_mark actor (true, w) = finish (backend.synchronize actor w)
  after_mark actor (false, w) = (fail update_failed "Failed to mark actor tattoos updated", w)

  after_write : A → Bool × W → Expected UpdateTattooAppearanceSuccess × W
  unfolding after_mark
  after_write actor (true, w) = after_mark actor (backend.mark_actor_updated actor w)
  after_write actor (false, w) = (fail update_failed "Failed to update tattoo appearance", w)

  after_query : A → Expected (List ℤ) × W → Expected UpdateTattooAppearanceSuccess × W
  unfolding after_write contains_applied_tattoo_handle
  after_query actor (unexpected e, w) = (unexpected e, w)
  after_query actor (ok handles, w) =
      if contains_applied_tattoo_handle handles request.runtime_handle
      then after_write actor (backend.write_appearance request.runtime_handle request w)
      else (
        fail stale_tattoo_handle "Tattoo handle is stale; refresh the slot snapshot and try again",
        w,
      )

  after_actor : A → UpdateTattooAppearanceMode → W → Expected UpdateTattooAppearanceSuccess × W
  unfolding after_query after_mark
  after_actor actor UpdateTattooAppearanceMode.update_and_synchronize w =
      after_query actor (backend.query_applied_tattoo_handles actor w)
  after_actor actor UpdateTattooAppearanceMode.synchronize_only w =
      after_mark actor (backend.mark_actor_updated actor w)

  after_resolve : Option A × W → Expected UpdateTattooAppearanceSuccess × W
  unfolding after_actor
  after_resolve (none, w) = (fail actor_not_found "Actor not found", w)
  after_resolve (some actor, w) = after_actor actor request.mode w

  unfoldable pub update_tattoo_appearance : W → Expected UpdateTattooAppearanceSuccess × W
  unfolding after_resolve
  update_tattoo_appearance w = after_resolve (backend.resolve_actor request.actor_form_id w)
