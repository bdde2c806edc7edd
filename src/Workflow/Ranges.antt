-- ===== src/Workflow/Ranges.antt =====
-- What the values in the workflow's requests can be.
use slavetat_ui.Base.{
  List, [], ◌∷◌, ◌≡◌, ◌≢◌, refl, arith, false, ◌⊎◌, inl, inr, ℤ, pos, Float, fin, nan, infinity,
  neg_infinity, clamp_ℤ, clamp_f, zero_f, one_f, eq_f, Option, none, some, Option-cases, false,
  eq_f, ◌&&◌, ◌==ℤ◌, ==ℤ_iff,
}
use slavetat_ui.Core.Models.{TattooEntry, SlotOccupancy}
use slavetat_ui.Core.Service.Cases.{InUnit, InColorRange}
use slavetat_ui.Catalog.{NativeCatalogBrowserModel}
use slavetat_ui.Workflow.State.{
  new_workflow, NativeSlotWorkflowModel, PreviewTattooAppearance, AppearanceEditSession,
  SlotApplyTicket, SlotAppearanceTicket, player_form_id, slots,
}
use slavetat_ui.Workflow.Actions.{find_slot, appearance_of, select_found, select_slot}
use slavetat_ui.Workflow.Edits.{eq_appearance, clamped}
use slavetat_ui.Workflow.Commands.{
  run, Command, step, starts, confirms_update, selects_slot, sets_preview, sets_edited,
}

-- What `std::clamp` to [0, 1] leaves: a number of that range, or NaN.
abbrev pub UnitOrNan : Float → Type 0
UnitOrNan nan = Unit {0}
UnitOrNan x = InUnit x

abbrev pub InRange : PreviewTattooAppearance → Type 0
InRange a = InColorRange a.color × UnitOrNan a.alpha

clamp_ℤ-InColorRange : (c : ℤ) → InColorRange (clamp_ℤ c (pos 0) (pos 0xFFFFFF))
clamp_ℤ-InColorRange c = ground arith

clamp_f-UnitOrNan : (x : Float) → UnitOrNan (clamp_f x zero_f one_f)
clamp_f-UnitOrNan nan = tt
clamp_f-UnitOrNan infinity = ground arith
clamp_f-UnitOrNan neg_infinity = ground arith
clamp_f-UnitOrNan (fin z) = ground arith

clamped-InRange : (c : ℤ) (x : Float) → InRange (clamped c x)
clamped-InRange c x = (clamp_ℤ-InColorRange c, clamp_f-UnitOrNan x)

abbrev pub IfSome {ℓ κ} : {A : Type ℓ} → (A → Type κ) → Option A → Type κ
IfSome P none = Unit
IfSome P (some a) = P a

-- An edited appearance is the one that the session began with, or a clamped one.
abbrev SessionFits : AppearanceEditSession → Type 0
SessionFits e = (e.runtime_handle ≢ pos 0) × ((e.edited ≡ e.original) ⊎ InRange e.edited)

abbrev pub ApplyFits : SlotApplyTicket → Type 0
ApplyFits t =
    (t.request.actor_form_id ≡ player_form_id)
    × InColorRange t.request.color
    × UnitOrNan t.request.alpha

-- Colour and alpha are in range, unless alpha is NaN; the handle is one; and the values that the
-- workflow does not edit are the defaults.
abbrev pub UpdateFits : SlotAppearanceTicket → Type 0
UpdateFits t =
    (t.request.runtime_handle ≢ pos 0)
    × ((InColorRange t.request.color × InUnit t.request.alpha) ⊎ (t.request.alpha ≡ nan))
    × (t.request.glow ≡ pos 0)
    × (t.request.glossiness ≡ zero_f)
    × (t.request.specular_strength ≡ zero_f)
    × (t.request.emissive_mult ≡ one_f)

pub record IsInRange (s : NativeSlotWorkflowModel) : Type 0 where
  pub preview : IfSome InRange s.preview_appearance
  pub session : IfSome SessionFits s.edit_session
  pub apply : IfSome ApplyFits s.pending_apply
  pub update : IfSome UpdateFits s.pending_appearance

appearance_of-InRange : (o : Option TattooEntry) → InRange (appearance_of o)
appearance_of-InRange none = omega arith
appearance_of-InRange (some t) = clamped-InRange t.color t.alpha

UnitOrNan-cases : (x : Float) → UnitOrNan x → InUnit x ⊎ (x ≡ nan)
UnitOrNan-cases nan h = inr refl
UnitOrNan-cases infinity h = inl h
UnitOrNan-cases neg_infinity h = inl h
UnitOrNan-cases (fin z) h = inl h

-- An appearance differs from itself only if its alpha is NaN.
ne_self_of_nan : (c : ℤ) (x : Float) → (c ==ℤ c && eq_f x x) ≡ false → x ≡ nan
ne_self_of_nan c nan h = refl
ne_self_of_nan c infinity h = ground (arith, ==ℤ_iff c c)
ne_self_of_nan c neg_infinity h = ground (arith, ==ℤ_iff c c)
ne_self_of_nan c (fin z) h = ground (arith, ==ℤ_iff c c, ==ℤ_iff z z)

-- What saving sends: an appearance that differs from the one it began with.
saved-InRange :
    (edited original : PreviewTattooAppearance)
    → eq_appearance edited original ≡ false
    → (edited ≡ original) ⊎ InRange edited
    → (InColorRange edited.color × InUnit edited.alpha) ⊎ (edited.alpha ≡ nan)
saved-InRange edited original h (inl e) =
    inr (ne_self_of_nan edited.color edited.alpha (rw (← e) at h))
saved-InRange edited original h (inr k) = elim (UnitOrNan-cases edited.alpha k.1) [
  | inl u ↦ inl (k.0, u)
  | inr n ↦ inr n
]

select_found-IsInRange :
    (slot : ℤ) (o : SlotOccupancy) (tattoo : Option TattooEntry) (s : NativeSlotWorkflowModel)
    → IsInRange s
    → IsInRange (select_found slot o tattoo s).0
unfolding select_found
select_found-IsInRange slot SlotOccupancy.external tattoo s h = h
select_found-IsInRange slot SlotOccupancy.empty tattoo s h = ground arith
select_found-IsInRange slot SlotOccupancy.slave_tats tattoo s h = record {
  preview = appearance_of-InRange tattoo;
  session = tt;
  apply = h.apply;
  update = h.update;
}

step-IsInRange : (c : Command) (s : NativeSlotWorkflowModel) → IsInRange s → IsInRange (step c s)
unfolding step
step-IsInRange starts s h = ground arith
step-IsInRange (sets_preview color alpha) s h = ground (arith, clamped-InRange color alpha)
step-IsInRange (sets_edited color alpha) s h = ground (arith, clamped-InRange color alpha)
step-IsInRange (selects_slot slot) s h = elim (Option-cases (find_slot slot (slots s))) [
  | inl e ↦ rw (e, step, select_slot) h
  | inr (t, e) ↦ rw (e, step, select_slot) (select_found-IsInRange slot t.occupancy t.tattoo s h)
]
step-IsInRange confirms_update s h = elim (Option-cases s.edit_session) [
  | inl e ↦ ground arith
  | inr (x, e) ↦ ground (arith, saved-InRange x.edited x.original)
]
step-IsInRange c s h = ground arith

run-IsInRange :
    (cs : List Command) (s : NativeSlotWorkflowModel) → IsInRange s → IsInRange (run cs s)
unfolding run
run-IsInRange [] s h = h
run-IsInRange (c ∷ cs) s h = run-IsInRange cs (step c s) (step-IsInRange c s h)

-- Over every history an application that is about to be sent is for the player, with a colour in
-- range; an update has a handle, default glow, glossiness, specular strength and emissive
-- multiplier; each alpha is between 0 and 1, unless it is NaN (then an update's colour is not
-- checked either).
pub run-new-IsInRange :
    (catalog : NativeCatalogBrowserModel) (cs : List Command)
    → IsInRange (run cs (new_workflow catalog))
run-new-IsInRange catalog cs = run-IsInRange cs (new_workflow catalog) (ground arith)
