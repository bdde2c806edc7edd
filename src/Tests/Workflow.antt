-- ===== src/Tests/Workflow.antt =====
-- The workflow's theorems.
use slavetat_ui.Base.{refl, arith, ◌≡◌, pos, ◌⊎◌, one_f, zero_f, none, some, codes}
use slavetat_ui.Core.Models.{
  UpdateTattooAppearanceMode, RemoveTattooMode, Expected, ok, unexpected, body,
}
use slavetat_ui.Core.Service.{apply_to_slot, remove_from_slot, update_appearance}
use slavetat_ui.Catalog.{new_catalog}
use slavetat_ui.Workflow.State.{
  AppearanceEditSession, new_workflow, area_name, equals_folded_ascii, SlotApplyTicket,
  SlotRemoveTicket, SlotAppearanceTicket,
}
use slavetat_ui.Workflow.Completions.{complete_appearance_update}
use slavetat_ui.Workflow.Commands.{
  run, step, starts, sets_edited, takes_query, completes_query, selects_slot, selects_tattoo,
}
use slavetat_ui.Workflow.Tickets.{IsTracked}
use slavetat_ui.Workflow.Window.{IsConsistent}
use slavetat_ui.Workflow.Progress.{Drives, here, next, Drives-IsConsistent}
use slavetat_ui.Workflow.Ranges.{IsInRange, run-new-IsInRange}
use slavetat_ui.Workflow.Requests.{
  apply_reaches_runtime, remove_reaches_runtime, update_reaches_runtime,
}
use slavetat_ui.Workflow.Results.{run-new-IsTracked}
use slavetat_ui.Workflow.Retry.{synchronize_only_sticks}
use slavetat_ui.Tests.Samples.{
  accepting, lion, two_slots, opening, previewing, applying_history, removing_history,
  saving_history, after_commands, not_synchronized,
}

abbrev failed {ℓ} : {A : Type ℓ} → Expected A
failed = unexpected not_synchronized

opened : Drives (new_workflow new_catalog) (after_commands opening)
unfolding step run
opened =
    next (next (next here starts tt refl) takes_query tt refl) (completes_query 1 (ok two_slots)) tt
      refl

previewed : Drives (new_workflow new_catalog) (after_commands previewing)
unfolding step run
previewed = next (next opened (selects_slot (pos 0)) refl refl) (selects_tattoo lion) refl refl

Drives-IsConsistent_example : IsConsistent (after_commands previewing)
Drives-IsConsistent_example = Drives-IsConsistent new_catalog previewed

at_preview_holds : IsConsistent (after_commands previewing)
at_preview_holds = Drives-IsConsistent new_catalog previewed

run-new-IsInRange_example : IsInRange (run saving_history (new_workflow new_catalog))
run-new-IsInRange_example = run-new-IsInRange new_catalog saving_history

run-new-IsTracked_example : IsTracked (run saving_history (new_workflow new_catalog))
run-new-IsTracked_example = run-new-IsTracked new_catalog saving_history (omega arith)

abbrev edit : AppearanceEditSession
edit = record {
  actor_form_id = 0x14;
  area = body;
  slot = pos 1;
  runtime_handle = pos 73;
  texture_path = codes "marks/lion.dds";
  original = record { color = pos 0x2468AC; alpha = one_f };
  edited = record { color = pos 0xFF; alpha = zero_f };
  mode = UpdateTattooAppearanceMode.update_and_synchronize;
}

synchronize_only_sticks_example :
    let s = complete_appearance_update 2 failed (after_commands saving_history) in
    ((step (sets_edited (pos 7) one_f) s).edit_session ≡ none)
    ⊎ ((step (sets_edited (pos 7) one_f) s).edit_session
        ≡ some (record edit { mode = UpdateTattooAppearanceMode.synchronize_only }))
unfolding run step complete_appearance_update
synchronize_only_sticks_example =
    synchronize_only_sticks (sets_edited (pos 7) one_f)
      (complete_appearance_update 2 failed (after_commands saving_history))
      (record edit { mode = UpdateTattooAppearanceMode.synchronize_only }) (ground arith) refl refl

abbrev apply_ticket : SlotApplyTicket
apply_ticket = record {
  generation = 2;
  request = record {
    actor_form_id = 0x14;
    area = body;
    slot = pos 0;
    domain = codes "default";
    section = codes "Beasts";
    name = codes "Lion";
    color = pos 0xFFFFFF;
    alpha = one_f;
  };
}

apply_reaches_runtime_example :
    apply_to_slot accepting apply_ticket.request 0 ≡ accepting.apply_to_slot apply_ticket.request 0
unfolding run step area_name equals_folded_ascii
apply_reaches_runtime_example =
    apply_reaches_runtime accepting 0 new_catalog applying_history apply_ticket (ground arith) refl
      (ground arith) (ground arith) (ground arith) (ground arith)

abbrev remove_ticket : SlotRemoveTicket
remove_ticket = record {
  generation = 2;
  request = record {
    actor_form_id = 0x14;
    area = body;
    slot = pos 1;
    mode = RemoveTattooMode.remove_and_synchronize;
  };
}

remove_reaches_runtime_example :
    remove_from_slot accepting remove_ticket.request 0
    ≡ accepting.remove_from_slot remove_ticket.request 0
unfolding run step
remove_reaches_runtime_example =
    remove_reaches_runtime accepting 0 new_catalog removing_history remove_ticket (ground arith)
      refl (ground arith)

abbrev update_ticket : SlotAppearanceTicket
update_ticket = record {
  generation = 2;
  request = record {
    actor_form_id = 0x14;
    runtime_handle = pos 73;
    color = pos 0xFF;
    alpha = zero_f;
    glow = pos 0;
    glossiness = zero_f;
    specular_strength = zero_f;
    emissive_mult = one_f;
    mode = UpdateTattooAppearanceMode.update_and_synchronize;
  };
}

update_reaches_runtime_example :
    update_appearance accepting update_ticket.request 0
    ≡ accepting.update_appearance update_ticket.request 0
unfolding run step
update_reaches_runtime_example =
    update_reaches_runtime accepting 0 new_catalog saving_history update_ticket refl (ground arith)
      (ground arith) (ground arith)
