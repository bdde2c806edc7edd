-- ===== src/Core/Service.antt =====
-- src/core/SlaveTatsService.{h,cpp}: each call is checked, and then handed to the runtime.
pub mod Cases
use slavetat_ui.Base.{
  ℕ, ◌&&◌, ◌||◌, not, Bool, true, false, ◌==◌, if◌then◌else◌, ℤ, pos, ltb_ℤ, ◌==ℤ◌, Float, zero_f,
  one_f, lt_f, le_f, is_finite, Text, is_empty, String, List,
}
use slavetat_ui.Core.Models.{
  TattooEntry, TattooArea, body, face, hands, feet, other, TattooSlots, ApplyTattooRequest,
  ApplyTattooSuccess, RemoveTattooRequest, RemoveTattooSuccess, UpdateTattooAppearanceMode,
  UpdateTattooAppearanceRequest, UpdateTattooAppearanceSuccess, ServiceErrorCode, Expected, ok,
  unexpected, fail, ◌>>=◌, ◌>>◌,
}
use slavetat_ui.Core.Models.{
  slave_tats_unavailable, jcontainers_unavailable, actor_not_found, invalid_area, invalid_slot,
  tattoo_not_found, apply_failed, stale_tattoo_handle, update_failed,
}
use slavetat_ui.Core.Runtime.{ITattooRuntime}

-- The guard `if (!test) return std::unexpected(...)`.
abbrev pub check : Bool → ServiceErrorCode → String → Expected (Unit {0})
check true code message = ok tt
check false code message = fail code message

abbrev pub is_valid_area : TattooArea → Bool
is_valid_area (other n) = false
is_valid_area a = true

abbrev pub is_update : UpdateTattooAppearanceMode → Bool
is_update UpdateTattooAppearanceMode.update_and_synchronize = true
is_update UpdateTattooAppearanceMode.synchronize_only = false

abbrev pub in_color_range : ℤ → Bool
in_color_range c = not (ltb_ℤ c (pos 0) || ltb_ℤ (pos 0xFFFFFF) c)

abbrev pub is_finite_non_negative : Float → Bool
is_finite_non_negative x = not (not (is_finite x) || lt_f x zero_f)

-- The checks of the values that an update writes.
appearance_checks : UpdateTattooAppearanceRequest → Expected (Unit {0})
appearance_checks r = do
  check (in_color_range r.color) update_failed "Tattoo color must be between 0 and 0xFFFFFF"
  check (not (not (is_finite r.alpha) || lt_f r.alpha zero_f || lt_f one_f r.alpha)) update_failed
      "Tattoo alpha must be between 0 and 1"
  check (in_color_range r.glow) update_failed "Tattoo glow must be between 0 and 0xFFFFFF"
  check (is_finite_non_negative r.glossiness) update_failed
      "Tattoo glossiness must be finite and non-negative"
  check (is_finite_non_negative r.specular_strength) update_failed
      "Tattoo specular strength must be finite and non-negative"
  check (is_finite_non_negative r.emissive_mult) update_failed
      "Tattoo emissive multiplier must be finite and non-negative"

-- The runtime is called only when no check has failed.
abbrev pub guarded :
    {W A : Type 0} → Expected (Unit {0}) → (W → Expected A × W) → W → Expected A × W
guarded (ok _) call w = call w
guarded (unexpected e) call w = (unexpected e, w)

module _ {W : Type 0} (runtime : ITattooRuntime W) where
  -- The first two checks of every operation.
  ready_checks : W → Expected (Unit {0})
  ready_checks w = do
    check (runtime.api_available w) slave_tats_unavailable "SlaveTatsNG not available"
    check (runtime.jcontainers_ready w) jcontainers_unavailable "JContainers not ready"

  actor_checks : ℕ → W → Expected (Unit {0})
  unfolding ready_checks
  actor_checks actor_form_id w =
      ready_checks w >> check (not (actor_form_id == 0)) actor_not_found "Actor not found"

  area_checks : ℕ → TattooArea → W → Expected (Unit {0})
  unfolding actor_checks
  area_checks actor_form_id area w =
      actor_checks actor_form_id w >> check (is_valid_area area) invalid_area "Invalid tattoo area"

  slot_checks : ℕ → TattooArea → ℤ → W → Expected (Unit {0})
  unfolding area_checks
  slot_checks actor_form_id area slot w =
      area_checks actor_form_id area w
      >> check (not (ltb_ℤ slot (pos 0))) invalid_slot "Invalid tattoo slot"

  apply_checks : ApplyTattooRequest → W → Expected (Unit {0})
  unfolding slot_checks
  apply_checks r w = do
    slot_checks r.actor_form_id r.area r.slot w
    check (not (is_empty r.section || is_empty r.name)) tattoo_not_found
        "Tattoo section and name are required"
    check (le_f zero_f r.alpha && le_f r.alpha one_f) apply_failed
        "Tattoo alpha must be between 0 and 1"

  update_checks : UpdateTattooAppearanceRequest → W → Expected (Unit {0})
  unfolding actor_checks appearance_checks
  update_checks r w = do
    actor_checks r.actor_form_id w
    check (not (is_update r.mode && r.runtime_handle ==ℤ pos 0)) stale_tattoo_handle
        "Tattoo handle is invalid; refresh the slot snapshot and try again"
    if is_update r.mode then appearance_checks r else ok tt

  unfoldable pub query_available : Text → W → Expected (List TattooEntry) × W
  unfolding ready_checks
  query_available domain w = guarded (ready_checks w) (runtime.query_available domain) w

  unfoldable pub query_slots : ℕ → TattooArea → W → Expected TattooSlots × W
  unfolding area_checks
  query_slots actor_form_id area w =
      guarded (area_checks actor_form_id area w) (runtime.query_slots actor_form_id area) w

  unfoldable pub apply_to_slot : ApplyTattooRequest → W → Expected ApplyTattooSuccess × W
  unfolding apply_checks
  apply_to_slot request w = guarded (apply_checks request w) (runtime.apply_to_slot request) w

  unfoldable pub remove_from_slot : RemoveTattooRequest → W → Expected RemoveTattooSuccess × W
  unfolding slot_checks
  remove_from_slot r w =
      guarded (slot_checks r.actor_form_id r.area r.slot w) (runtime.remove_from_slot r) w

  unfoldable pub update_appearance :
      UpdateTattooAppearanceRequest → W → Expected UpdateTattooAppearanceSuccess × W
  unfolding update_checks
  update_appearance request w =
      guarded (update_checks request w) (runtime.update_appearance request) w
