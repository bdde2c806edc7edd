-- ===== src/Tests/Service.antt =====
-- The service's theorems.
use slavetat_ui.Base.{pos, zero_f, one_f, codes}
use slavetat_ui.Core.Models.{
  body, ApplyTattooRequest, RemoveTattooRequest, RemoveTattooMode, UpdateTattooAppearanceRequest,
  UpdateTattooAppearanceMode,
}
use slavetat_ui.Core.Service.{apply_to_slot, remove_from_slot, update_appearance}
use slavetat_ui.Core.Service.Cases.{
  Forwards, IsReady, AdmitsApply, AdmitsRemove, AdmitsUpdate, calls-Forwards,
}
use slavetat_ui.Tests.Samples.{accepting}

abbrev an_apply : ApplyTattooRequest
an_apply = record {
  actor_form_id = 0x14;
  area = body;
  slot = pos 0;
  domain = codes "default";
  section = codes "Beasts";
  name = codes "Lion";
  color = pos 0xFFFFFF;
  alpha = one_f;
}

abbrev a_removal : RemoveTattooRequest
a_removal = record {
  actor_form_id = 0x14;
  area = body;
  slot = pos 1;
  mode = RemoveTattooMode.remove_and_synchronize;
}

abbrev an_update : UpdateTattooAppearanceRequest
an_update = record {
  actor_form_id = 0x14;
  runtime_handle = pos 73;
  color = pos 0xFF;
  alpha = one_f;
  glow = pos 0;
  glossiness = zero_f;
  specular_strength = zero_f;
  emissive_mult = one_f;
  mode = UpdateTattooAppearanceMode.update_and_synchronize;
}

calls-Forwards_example :
    Forwards
      (IsReady accepting 0 × AdmitsApply an_apply)
      (apply_to_slot accepting an_apply 0)
      (accepting.apply_to_slot an_apply 0)
      0
    × Forwards
        (IsReady accepting 0 × AdmitsRemove a_removal)
        (remove_from_slot accepting a_removal 0)
        (accepting.remove_from_slot a_removal 0)
        0
    × Forwards
        (IsReady accepting 0 × AdmitsUpdate an_update)
        (update_appearance accepting an_update 0)
        (accepting.update_appearance an_update 0)
        0
calls-Forwards_example = calls-Forwards accepting 0 an_apply a_removal an_update
