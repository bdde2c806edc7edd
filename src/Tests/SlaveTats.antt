-- ===== src/Tests/SlaveTats.antt =====
-- The theorems of the calls of the plugins.
use slavetat_ui.Base.{
  ℕ, ◌+◌, ◌≡◌, ◌≢◌, refl, arith, ℤ, pos, ◌==ℤ◌, ==ℤ_iff, Float, zero_f, one_f, eq_text_refl, true,
  false, not, ◌&&◌, if◌then◌else◌, Text, codes, [], ◌∷◌, none, some, ◌==◌,
}
use slavetat_ui.Core.Models.{
  TattooEntry, default_entry, body, TattooSlots, SlotOccupancy, ApplyTattooRequest,
  UpdateTattooAppearanceMode, UpdateTattooAppearanceRequest,
}
use slavetat_ui.Core.Service.{query_slots}
use slavetat_ui.Workflow.Commands.{completes_query}
use slavetat_ui.Workflow.Requests.{IsSane}
use slavetat_ui.SlaveTats.JContainers.{
  JContainers, array_object, array_count, array_get_obj, array_get_int, add_to_pool, clean_pool,
  form_set_int, form_get_int, map_get_str, map_get_int, map_get_flt, map_set_int, map_set_flt,
  map_set_int_and_verify, map_set_flt_and_verify, form_set_int_and_verify,
}
use slavetat_ui.SlaveTats.Configuration.{IniIntegerReader, new_counts, count}
use slavetat_ui.SlaveTats.Calls.{
  Game, ◌>>=◌, guard_pool, query_external_slots, new_array, array_ints, array_objs,
}
use slavetat_ui.SlaveTats.Available.{entry_of_map}
use slavetat_ui.SlaveTats.Slots
use slavetat_ui.SlaveTats.Operations.{apply_to_slot, check_external}
use slavetat_ui.SlaveTats.Backend.{
  backend, query_applied_tattoo_handles, write_appearance, update_appearance,
}
use slavetat_ui.Appearance.{update_tattoo_appearance, contains_applied_tattoo_handle}
use slavetat_ui.SlaveTats.Runtime.{new_runtime, slave_tats}
use slavetat_ui.SlaveTats.Maps.{IsMap, IsApart, differ, fold_case}
use slavetat_ui.SlaveTats.Keeps.{QueriesKeep}
use slavetat_ui.SlaveTats.Shown.{IsSnapshot, query_slots-IsSnapshot}
use slavetat_ui.SlaveTats.Sane.{query_slots-IsSane}
use slavetat_ui.SlaveTats.Untouched.{apply_to_slot-untouched}
use slavetat_ui.SlaveTats.Restores.{appearance, apply_to_slot-appearance}
use slavetat_ui.SlaveTats.Written.{values, IsOf, update_appearance-IsOf}

-- The values of the maps by object and key, and how many calls have written.
record World : Type 0 where
  ints : ℤ → Text → ℤ
  flts : ℤ → Text → Float
  writes : ℕ

abbrev set_int : ℤ → Text → ℤ → World → World
set_int p k v w = record w {
  ints = λ o key. if p ==ℤ o && not (differ k key) then v else w.ints o key;
}

abbrev set_flt : ℤ → Text → Float → World → World
set_flt p k v w = record w {
  flts = λ o key. if p ==ℤ o && not (differ k key) then v else w.flts o key;
}

-- Every array holds the object 73 once, whose strings are "Lion".
abbrev jc : JContainers ℕ World
jc = record {
  fn_jarr_object = some (λ w. (pos 5, w));
  fn_jarr_count = some (λ array w. pos 1);
  fn_jarr_get_obj = some (λ array index def w. pos 73);
  fn_jarr_get_int = some (λ array index def w. pos 1);
  fn_jmap_get_str = some (λ o key def w. codes "Lion");
  fn_jmap_get_int = some (λ o key def w. w.ints o key);
  fn_jmap_get_flt = some (λ o key def w. w.flts o key);
  fn_jmap_set_int = some set_int;
  fn_jmap_set_flt = some set_flt;
  fn_jfdb_get_int = some (λ form path def w. pos 1);
  fn_jfdb_set_int = some (λ form path v w. record w { writes = w.writes + 1 });
  fn_jval_add_to_pool = some (λ o pool w. (o, w));
  fn_jval_clean_pool = some (λ pool w. w);
}

-- Slot 1 is external, and the others are empty.
abbrev game : Game ℕ World
game = record {
  api = record {
    query_available_tattoos = λ matches domain w. (false, w);
    query_applied_tattoos = λ actor matches w. (false, w);
    external_slots = λ actor area matches w. (false, w);
    get_applied_tattoo_in_slot = λ actor area slot w. (pos 0, w);
    add_and_get_tattoo = λ actor tattoo slot w. (pos 80, record w { writes = w.writes + 1 });
    remove_tattoo_from_slot = λ actor area slot w. (false, record w { writes = w.writes + 1 });
    synchronize_tattoos = λ actor w. (false, record w { writes = w.writes + 1 });
  };
  jc = jc;
  lookup_actor = λ form w. if form == 0x14 then some 7 else none;
  one_minus = λ x. x;
}

abbrev start_world : World
start_world = record { ints = λ o key. pos 9; flts = λ o key. zero_f; writes = 0 }

abbrev reader : IniIntegerReader World
reader section key fallback w = (pos 2, w)

abbrev tattooing : ℤ → ApplyTattooRequest
tattooing slot = record {
  actor_form_id = 0x14;
  area = body;
  slot = slot;
  domain = codes "default";
  section = codes "Lion";
  name = codes "Lion";
  color = pos 0xFF;
  alpha = one_f;
}

abbrev painting : UpdateTattooAppearanceRequest
painting = record {
  actor_form_id = 0x14;
  runtime_handle = pos 73;
  color = pos 0xFF;
  alpha = one_f;
  glow = pos 3;
  glossiness = zero_f;
  specular_strength = one_f;
  emissive_mult = one_f;
  mode = UpdateTattooAppearanceMode.update_and_synchronize;
}

queries_keep : {V : Type 0} (view : World → V) → QueriesKeep game view
unfolding array_object add_to_pool clean_pool
queries_keep view = record {
  object = λ w. refl;
  pooled = λ o pool w. refl;
  cleaned = λ pool w. refl;
  external = λ actor area matches w. refl;
  available = λ matches domain w. refl;
}

object : IsMap jc (pos 73)
unfolding map_get_int map_get_flt map_set_int map_set_flt
object = record {
  int_set = λ k v def w. rw (eq_text_refl (fold_case k)) refl;
  flt_set = λ k v def w. rw (eq_text_refl (fold_case k)) refl;
  int_int = λ k key v def w d. rw d refl;
  int_flt = λ k key v def w d. refl;
  flt_int = λ k key v def w d. refl;
  flt_flt = λ k key v def w d. rw d refl;
}

not_equal : (p : ℤ) → p ≢ pos 73 → (p ==ℤ pos 73) ≡ false
not_equal p n = ground (arith, ==ℤ_iff p (pos 73))

apart : IsApart jc (pos 73)
unfolding map_get_int map_get_flt map_set_int map_set_flt
apart = record {
  int_other = λ p k key v def w n. rw (not_equal p n) refl;
  int_other_flt = λ p k key v def w n. refl;
  flt_other_int = λ p k key v def w n. refl;
  flt_other = λ p k key v def w n. rw (not_equal p n) refl;
}

-- The game with the tattoo 73 in slot 0.
abbrev wearing : Game ℕ World
wearing = record game {
  api = record (game.api) {
    get_applied_tattoo_in_slot = λ actor area slot w.
        (if slot ==ℤ pos 0 then pos 73 else pos 0, record w { writes = w.writes + 1 });
  };
}

-- Its entry: the game's strings are "Lion", its integers 9 and its floats 0.
abbrev worn_entry : TattooEntry
worn_entry = record default_entry {
  runtime_handle = pos 73;
  domain = codes "Lion";
  area = codes "BODY";
  slot = pos 0;
  section = codes "Lion";
  name = codes "Lion";
  texture_path = codes "Lion";
  color = pos 9;
  locked = true;
  alpha = zero_f;
  glow = pos 9;
  glossiness = zero_f;
  specular_strength = zero_f;
  bump = codes "Lion";
  glow_texture = codes "Lion";
  emissive_mult = zero_f;
}

abbrev two_slots : TattooSlots
two_slots = record {
  actor_form_id = 0x14;
  area = body;
  configured_count = pos 2;
  slots =
      record { index = pos 0; occupancy = SlotOccupancy.slave_tats; tattoo = some worn_entry }
      ∷ record { index = pos 1; occupancy = SlotOccupancy.external; tattoo = none }
      ∷ [];
}

query_slots-IsSnapshot_example :
    IsSnapshot wearing reader 0x14 body
      (new_counts, start_world)
      two_slots
      (record new_counts { at0 = some (pos 2) }, record start_world { writes = 2 })
unfolding Slots.query_slots count Slots.slots_of_actor Slots.read_slots Slots.slot_of
    Slots.applied_entry entry_of_map map_get_str map_get_int map_get_flt Slots.find_external
    Slots.find_actor query_external_slots ◌>>=◌ guard_pool array_object array_count array_get_int
    add_to_pool clean_pool new_array array_ints
query_slots-IsSnapshot_example =
    query_slots-IsSnapshot wearing reader 0x14 body new_counts start_world _ two_slots refl

query_slots-IsSane_example : IsSane (
    completes_query 4
      (query_slots
        (slave_tats game reader)
        0x14
        body
        (record new_runtime { api = true; jcontainers_ready = true }, start_world)).0)
query_slots-IsSane_example =
    query_slots-IsSane game reader 4 0x14 body
      (record new_runtime { api = true; jcontainers_ready = true }, start_world)

-- Slot 1 is external.
apply_to_slot-untouched_example : (apply_to_slot game (tattooing (pos 1)) start_world).1.writes ≡ 0
unfolding apply_to_slot ◌>>=◌ guard_pool Slots.find_actor check_external query_external_slots
    array_object array_count array_get_int add_to_pool clean_pool new_array array_ints
apply_to_slot-untouched_example =
    apply_to_slot-untouched game (λ w. w.writes) (queries_keep (λ w. w.writes)) (tattooing (pos 1))
      start_world (λ l. l)

apply_to_slot-appearance_example :
    appearance game (pos 73) (apply_to_slot game (tattooing (pos 0)) start_world).1
    ≡ (pos 9, zero_f)
unfolding map_get_int map_get_flt form_set_int
apply_to_slot-appearance_example =
    apply_to_slot-appearance game (pos 73) object apart (queries_keep (appearance game (pos 73)))
      (record { marked = λ actor path v w. refl; synchronized = λ actor w. refl })
      (λ actor tattoo slot w. refl) (tattooing (pos 0)) start_world

update_appearance-IsOf_example :
    IsOf game painting (values game (pos 73) (update_appearance game painting start_world).1)
unfolding update_appearance backend update_tattoo_appearance contains_applied_tattoo_handle
    query_applied_tattoo_handles write_appearance map_set_int_and_verify map_set_flt_and_verify
    form_set_int_and_verify map_get_int map_get_flt map_set_int map_set_flt form_set_int
    form_get_int array_objs array_get_obj ◌>>=◌ guard_pool array_object array_count add_to_pool
    clean_pool new_array
update_appearance-IsOf_example =
    update_appearance-IsOf game painting start_world (update_appearance game painting start_world).1
      (record { actor_form_id = 0x14; runtime_handle = pos 73 }) object
      (record { marked = λ actor path v w. refl; synchronized = λ actor w. refl }) refl refl
