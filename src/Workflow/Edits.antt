-- ===== src/Workflow/Edits.antt =====
-- The preview of a tattoo and the editor of an appearance, in `NativeSlotWorkflowModel`.
use slavetat_ui.Base.{
  Bool, true, false, not, ◌&&◌, if◌then◌else◌, ℤ, pos, ◌==ℤ◌, clamp_ℤ, Float, zero_f, one_f, eq_f,
  clamp_f, codes, is_some, Option, none, some,
}
use slavetat_ui.Core.Models.{SlotOccupancy, TattooSlot, UpdateTattooAppearanceMode}
use slavetat_ui.Core.Service.{is_update}
use slavetat_ui.Repository.Models.{TattooDefinition}
use slavetat_ui.Workflow.State.{
  slot_actions, picker, preview, applying, edit_appearance, saving_appearance,
  PreviewTattooAppearance, AppearanceEditSession, NativeSlotWorkflowModel, player_form_id,
  area_name, equals_folded_ascii, slots, next_generation,
}
use slavetat_ui.Workflow.Actions.{find_slot, back_to_slots}

unfoldable pub select_tattoo : TattooDefinition → NativeSlotWorkflowModel → NativeSlotWorkflowModel
select_tattoo tattoo s = elim s.screen [
  | picker ↦
      if is_some s.target_slot && equals_folded_ascii tattoo.area (area_name s.selected_area)
      then record s { preview_tattoo = some tattoo; error = none; screen = preview }
      else s
  | _ ↦ s
]

-- What both appearance setters store.
abbrev pub clamped : ℤ → Float → PreviewTattooAppearance
clamped color alpha = record {
  color = clamp_ℤ color (pos 0) (pos 0xFFFFFF);
  alpha = clamp_f alpha zero_f one_f;
}

unfoldable pub set_preview_appearance :
    ℤ → Float → NativeSlotWorkflowModel → NativeSlotWorkflowModel
set_preview_appearance color alpha s = elim s.screen [
  | preview ↦
      if is_some s.preview_appearance
      then record s { preview_appearance = some (clamped color alpha) }
      else s
  | _ ↦ s
]

unfoldable pub cancel_preview : NativeSlotWorkflowModel → NativeSlotWorkflowModel
unfolding back_to_slots
cancel_preview s = elim s.screen [ preview ↦ back_to_slots s | _ ↦ s ]

-- The body of `confirmApply`, once its guards have passed.
issue_apply :
    ℤ
    → TattooDefinition
    → PreviewTattooAppearance
    → NativeSlotWorkflowModel
    → NativeSlotWorkflowModel
issue_apply slot tattoo appearance s = record s {
  generation = next_generation s;
  pending_apply = some (record {
    generation = next_generation s;
    request = record {
      actor_form_id = player_form_id;
      area = s.selected_area;
      slot = slot;
      domain = codes "default";
      section = tattoo.section;
      name = tattoo.name;
      color = appearance.color;
      alpha = appearance.alpha;
    };
  });
  active_apply = some (next_generation s);
  error = none;
  screen = applying;
}

-- The guards on the three values that must be there.
apply_chosen :
    Option ℤ
    → Option TattooDefinition
    → Option PreviewTattooAppearance
    → NativeSlotWorkflowModel
    → NativeSlotWorkflowModel × Bool
unfolding issue_apply
apply_chosen (some slot) (some tattoo) (some appearance) s =
    if equals_folded_ascii tattoo.area (area_name s.selected_area)
    then (issue_apply slot tattoo appearance s, true)
    else (s, false)
apply_chosen slot tattoo appearance s = (s, false)

unfoldable pub confirm_apply : NativeSlotWorkflowModel → NativeSlotWorkflowModel × Bool
unfolding apply_chosen
confirm_apply s = elim s.screen [
  | preview ↦ apply_chosen s.target_slot s.preview_tattoo s.preview_appearance s
  | _ ↦ (s, false)
]

-- The session that editing the slot's tattoo opens, if it can be edited.
edit_found : NativeSlotWorkflowModel → TattooSlot → Option AppearanceEditSession
edit_found s found = elim found.occupancy [
  | SlotOccupancy.slave_tats ↦ elim found.tattoo [
    | none ↦ none
    | some t ↦
        if t.runtime_handle ==ℤ pos 0
        then none
        else some (record {
          actor_form_id = elim (slots s) [ none ↦ 0 | some current ↦ current.actor_form_id ];
          area = s.selected_area;
          slot = found.index;
          runtime_handle = t.runtime_handle;
          texture_path = t.texture_path;
          original = record { color = t.color; alpha = t.alpha };
          edited = record { color = t.color; alpha = t.alpha };
          mode = UpdateTattooAppearanceMode.update_and_synchronize;
        })
  ]
  | _ ↦ none
]

-- The slot that `m_targetSlot` names, among the current ones.
abbrev pub target_found : NativeSlotWorkflowModel → Option TattooSlot
target_found s = elim s.target_slot [ none ↦ none | some slot ↦ find_slot slot (slots s) ]

editable : NativeSlotWorkflowModel → Option AppearanceEditSession
unfolding edit_found
editable s = elim (target_found s) [ none ↦ none | some found ↦ edit_found s found ]

unfoldable pub begin_edit_appearance : NativeSlotWorkflowModel → NativeSlotWorkflowModel × Bool
unfolding editable
begin_edit_appearance s = elim s.screen [
  | slot_actions ↦ elim (editable s) [
    | none ↦ (s, false)
    | some session ↦
        (record s { edit_session = some session; error = none; screen = edit_appearance }, true)
  ]
  | _ ↦ (s, false)
]

unfoldable pub set_edited_appearance : ℤ → Float → NativeSlotWorkflowModel → NativeSlotWorkflowModel
set_edited_appearance color alpha s = elim s.screen [
  | edit_appearance ↦ elim s.edit_session [
    | none ↦ s
    | some session ↦
        if is_update session.mode
        then record s { edit_session = some (record session { edited = clamped color alpha }) }
        else s
  ]
  | _ ↦ s
]

unfoldable pub cancel_edit_appearance : NativeSlotWorkflowModel → NativeSlotWorkflowModel
cancel_edit_appearance s = elim s.screen [
  | edit_appearance ↦ record s { edit_session = none; error = none; screen = slot_actions }
  | _ ↦ s
]

-- The defaulted `operator==` of `PreviewTattooAppearance`.
abbrev pub eq_appearance : PreviewTattooAppearance → PreviewTattooAppearance → Bool
eq_appearance a b = a.color ==ℤ b.color && eq_f a.alpha b.alpha

unfoldable pub can_save_appearance : NativeSlotWorkflowModel → Bool
can_save_appearance s = elim s.screen [
  | edit_appearance ↦ elim s.edit_session [
    | none ↦ false
    | some session ↦ not (eq_appearance session.edited session.original)
  ]
  | _ ↦ false
]

-- The request names only colour and alpha; the other values are the request's defaults.
issue_appearance : AppearanceEditSession → NativeSlotWorkflowModel → NativeSlotWorkflowModel
issue_appearance session s = record s {
  generation = next_generation s;
  pending_appearance = some (record {
    generation = next_generation s;
    request = record {
      actor_form_id = session.actor_form_id;
      runtime_handle = session.runtime_handle;
      color = session.edited.color;
      alpha = session.edited.alpha;
      glow = pos 0;
      glossiness = zero_f;
      specular_strength = zero_f;
      emissive_mult = one_f;
      mode = session.mode;
    };
  });
  active_appearance = some (next_generation s);
  error = none;
  screen = saving_appearance;
}

unfoldable pub confirm_appearance_update : NativeSlotWorkflowModel → NativeSlotWorkflowModel × Bool
unfolding can_save_appearance issue_appearance
confirm_appearance_update s = elim s.edit_session [
  | none ↦ (s, false)
  | some session ↦ if can_save_appearance s then (issue_appearance session s, true) else (s, false)
]
