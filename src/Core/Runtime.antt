-- ===== src/Core/Runtime.antt =====
-- src/core/ITattooRuntime.h: what the service asks of the tattoo runtime. The game and the
-- SlaveTatsNG and JContainers plugins behind it are a world `W`, which each call may change.
use slavetat_ui.Base.{ℕ, Text, List, Bool}
use slavetat_ui.Core.Models.{
  TattooEntry, TattooArea, TattooSlots, ApplyTattooRequest, ApplyTattooSuccess, RemoveTattooRequest,
  RemoveTattooSuccess, UpdateTattooAppearanceRequest, UpdateTattooAppearanceSuccess, Expected,
}

pub record ITattooRuntime (W : Type 0) : Type 0 where
  pub api_available : W → Bool
  pub jcontainers_ready : W → Bool
  pub query_available : Text → W → Expected (List TattooEntry) × W
  pub query_slots : ℕ → TattooArea → W → Expected TattooSlots × W
  pub apply_to_slot : ApplyTattooRequest → W → Expected ApplyTattooSuccess × W
  pub remove_from_slot : RemoveTattooRequest → W → Expected RemoveTattooSuccess × W
  pub update_appearance :
      UpdateTattooAppearanceRequest → W → Expected UpdateTattooAppearanceSuccess × W
