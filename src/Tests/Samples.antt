-- ===== src/Tests/Samples.antt =====
-- Data for the tests: a runtime that accepts everything, a small catalog, and some histories.
use slavetat_ui.Base.{ℕ, ◌+◌, true, pos, zero_f, codes, List, [], ◌∷◌, none, some, ◌++◌}
use slavetat_ui.Core.Models.{
  TattooEntry, default_entry, body, SlotOccupancy, TattooSlots, ServiceError, synchronize_failed,
  ok, fail, slot_query_failed,
}
use slavetat_ui.Core.Runtime.{ITattooRuntime}
use slavetat_ui.Repository.Models.{TattooDefinition, TattooFilter}
use slavetat_ui.Repository.Query.{new_repository}
use slavetat_ui.Catalog.{Snapshot, new_catalog, empty_filter}
use slavetat_ui.Workflow.State.{NativeSlotWorkflowModel, new_workflow}
use slavetat_ui.Workflow.Commands.{
  Command, run, starts, requests_remove, confirms_remove, confirms_apply, begins_edit,
  confirms_update, takes_query, selects_slot, selects_tattoo, sets_edited, completes_query,
}

-- The world counts the calls that reach it.
abbrev pub accepting : ITattooRuntime ℕ
accepting = record {
  api_available = λ w. true;
  jcontainers_ready = λ w. true;
  query_available = λ domain w. (ok [], w + 1);
  query_slots = λ actor area w. (fail slot_query_failed "external_slots failed", w + 1);
  apply_to_slot = λ r w. (
    ok (record {
      actor_form_id = r.actor_form_id;
      area = r.area;
      slot = r.slot;
      section = r.section;
      name = r.name;
    }),
    w + 1,
  );
  remove_from_slot =
      λ r w. (ok (record { actor_form_id = r.actor_form_id; area = r.area; slot = r.slot }), w + 1);
  update_appearance = λ r w.
      (ok (record { actor_form_id = r.actor_form_id; runtime_handle = r.runtime_handle }), w + 1);
}

abbrev pub lion : TattooDefinition
lion = record {
  source_id = codes "marks.json";
  source_file = codes "Marks.json";
  pack_name = codes "Marks";
  source_index = 1;
  name = codes "Lion";
  section = codes "Beasts";
  texture_path = codes "marks/lion.dds";
  area = codes "Body";
  glow = none;
  in_bsa = none;
  credit = none;
  glow_texture = none;
  emissive_mult = none;
  glossiness = none;
  specular_strength = none;
  bump = none;
}

abbrev pub adder : TattooDefinition
adder = record lion {
  source_index = 0;
  name = codes "Adder";
  texture_path = codes "marks/adder.dds";
}

abbrev pub crown : TattooDefinition
crown = record lion {
  source_index = 2;
  name = codes "Crown";
  section = codes "Signs";
  area = codes "HANDS";
}

abbrev pub three : List TattooDefinition
three = lion ∷ crown ∷ adder ∷ []

abbrev pub small_filter : TattooFilter
small_filter = record empty_filter { search = codes "BEAST"; page_size = 1 }

abbrev pub shelf : Snapshot
shelf = record { address = 7; repository = new_repository three }

abbrev pub worn : TattooEntry
worn = record default_entry {
  runtime_handle = pos 73;
  section = codes "Beasts";
  name = codes "Lion";
  texture_path = codes "marks/lion.dds";
  area = codes "BODY";
  slot = pos 1;
  color = pos 0x2468AC;
}

abbrev pub two_slots : TattooSlots
two_slots = record {
  actor_form_id = 0x14;
  area = body;
  configured_count = pos 2;
  slots =
      record { index = pos 0; occupancy = SlotOccupancy.empty; tattoo = none }
      ∷ record { index = pos 1; occupancy = SlotOccupancy.slave_tats; tattoo = some worn }
      ∷ [];
}

-- The plugin has started, and its first query has been answered.
abbrev pub opening : List Command
opening = starts ∷ takes_query ∷ completes_query 1 (ok two_slots) ∷ []

abbrev pub previewing : List Command
previewing = opening ++ (selects_slot (pos 0) ∷ selects_tattoo lion ∷ [])

abbrev pub applying_history : List Command
applying_history = previewing ++ (confirms_apply ∷ [])

abbrev pub confirming : List Command
confirming = opening ++ (selects_slot (pos 1) ∷ requests_remove ∷ [])

abbrev pub removing_history : List Command
removing_history = confirming ++ (confirms_remove ∷ [])

abbrev pub editing : List Command
editing = opening ++ (selects_slot (pos 1) ∷ begins_edit ∷ sets_edited (pos 0xFF) zero_f ∷ [])

abbrev pub saving_history : List Command
saving_history = editing ++ (confirms_update ∷ [])

abbrev pub after_commands : List Command → NativeSlotWorkflowModel
after_commands cs = run cs (new_workflow new_catalog)

abbrev pub not_synchronized : ServiceError
not_synchronized = record { code = synchronize_failed; message = "Tattoo synchronization failed" }
