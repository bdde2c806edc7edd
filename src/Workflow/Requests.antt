-- ===== src/Workflow/Requests.antt =====
-- The workflow's requests meet the service's checks.
use slavetat_ui.Base.{
  ◌≡◌, ◌≢◌, refl, arith, inl, inr, ℤ, pos, ◌≤ℤ◌, ◌==ℤ◌, ==ℤ_iff, Float, nan, infinity, neg_infinity,
  fin, All, find_if, Option, none, some, Option-cases, List, [], ◌∷◌, Bool-cases,
}
use slavetat_ui.Core.Models.{
  TattooEntry, TattooSlot, TattooSlots, SlotOccupancy, Expected, ok, unexpected,
  UpdateTattooAppearanceMode,
}
use slavetat_ui.Core.Runtime.{ITattooRuntime}
use slavetat_ui.Core.Service.{apply_to_slot, remove_from_slot, update_appearance}
use slavetat_ui.Core.Service.Cases.{
  InUnit, IsArea, IsReady, AdmitsMode, Forwards, apply_to_slot-Forwards, remove_from_slot-Forwards,
  update_appearance-Forwards,
}
use slavetat_ui.Catalog.{NativeCatalogBrowserModel}
use slavetat_ui.Workflow.State.{
  NativeSlotWorkflowModel, SlotApplyTicket, SlotRemoveTicket, SlotAppearanceTicket, new_workflow,
  slots,
}
use slavetat_ui.Workflow.Actions.{find_slot, select_found, select_slot}
use slavetat_ui.Workflow.Commands.{
  Command, step, run, starts, selects_area, selects_slot, completes_query,
}
use slavetat_ui.Workflow.Ranges.{IfSome, UpdateFits, UnitOrNan, run-new-IsInRange}

abbrev IsNatural : ℤ → Type 0
IsNatural z = pos 0 ≤ℤ z

abbrev RealSlots : TattooSlots → Type 0
RealSlots t = All (λ c. IsNatural c.index) t.slots

abbrev RealResult : Expected TattooSlots → Type 0
RealResult (ok t) = RealSlots t
RealResult (unexpected e) = Unit {0}

-- The commands that the plugin can see: an area is one of the four, and no slot that the runtime
-- reports has a negative index.
abbrev pub IsSane : Command → Type 0
IsSane (selects_area area) = IsArea area
IsSane (completes_query g r) = RealResult r
IsSane c = Unit {0}

record HasRealSlots (s : NativeSlotWorkflowModel) : Type 0 where
  at_body : IfSome RealSlots s.area_states.at_body.slots
  at_face : IfSome RealSlots s.area_states.at_face.slots
  at_hands : IfSome RealSlots s.area_states.at_hands.slots
  at_feet : IfSome RealSlots s.area_states.at_feet.slots
  area : IsArea s.selected_area
  target : IfSome IsNatural s.target_slot
  apply :
      IfSome
        (λ (t : SlotApplyTicket). IsNatural t.request.slot × IsArea t.request.area)
        s.pending_apply
  remove :
      IfSome
        (λ (t : SlotRemoveTicket).
          IsNatural t.request.slot × IsArea t.request.area × (t.request.actor_form_id ≢ 0))
        s.pending_remove

find_if-IsNatural :
    (slot : ℤ) (cs : List TattooSlot) (c : TattooSlot)
    → All (λ x. IsNatural x.index) cs
    → find_if (λ x. x.index ==ℤ slot) cs ≡ some c
    → IsNatural slot
find_if-IsNatural slot [] c h e = cc
find_if-IsNatural slot (x ∷ cs) c h e = elim (Bool-cases (x.index ==ℤ slot)) [
  | inl hit ↦ rw ((==ℤ_iff x.index slot).0 hit) at h.0
  | inr miss ↦ find_if-IsNatural slot cs c h.1 (rw miss at e)
]

find_slot-IsNatural :
    (slot : ℤ) (o : Option TattooSlots) (c : TattooSlot)
    → IfSome RealSlots o
    → find_slot slot o ≡ some c
    → IsNatural slot
find_slot-IsNatural slot none c h e = cc
find_slot-IsNatural slot (some t) c h e = find_if-IsNatural slot t.slots c h e

slots-RealSlots : (s : NativeSlotWorkflowModel) → HasRealSlots s → IfSome RealSlots (slots s)
slots-RealSlots s h = ground arith

select_found-HasRealSlots :
    (slot : ℤ) (o : SlotOccupancy) (tattoo : Option TattooEntry) (s : NativeSlotWorkflowModel)
    → IsNatural slot
    → HasRealSlots s
    → HasRealSlots (select_found slot o tattoo s).0
unfolding select_found
select_found-HasRealSlots slot SlotOccupancy.external tattoo s n h = h
select_found-HasRealSlots slot SlotOccupancy.empty tattoo s n h = ground arith
select_found-HasRealSlots slot SlotOccupancy.slave_tats tattoo s n h = ground arith

step-HasRealSlots :
    (c : Command) (s : NativeSlotWorkflowModel)
    → IsSane c
    → HasRealSlots s
    → HasRealSlots (step c s)
unfolding step
step-HasRealSlots starts s k h = ground arith
step-HasRealSlots (selects_slot slot) s k h = elim (Option-cases (find_slot slot (slots s))) [
  | inl e ↦ rw (e, step, select_slot) h
  | inr (t, e) ↦
      rw (e, step, select_slot)
        (select_found-HasRealSlots slot t.occupancy t.tattoo s
          (find_slot-IsNatural slot (slots s) t (slots-RealSlots s h) e) h)
]
step-HasRealSlots c s k h = ground arith

run-HasRealSlots :
    (cs : List Command) (s : NativeSlotWorkflowModel)
    → All IsSane cs
    → HasRealSlots s
    → HasRealSlots (run cs s)
unfolding run
run-HasRealSlots [] s k h = h
run-HasRealSlots (c ∷ cs) s k h = run-HasRealSlots cs (step c s) k.1 (step-HasRealSlots c s k.0 h)

forwarded :
    {W A P : Type 0} (result call : Expected A × W) (w : W)
    → Forwards P result call w
    → P
    → result ≡ call
forwarded result call w (inl f) p = f.1
forwarded result call w (inr f) p = absurd (f.0 p)

UnitOrNan-InUnit : (x : Float) → UnitOrNan x → x ≢ nan → InUnit x
UnitOrNan-InUnit nan h n = absurd (n refl)
UnitOrNan-InUnit infinity h n = h
UnitOrNan-InUnit neg_infinity h n = h
UnitOrNan-InUnit (fin z) h n = h

UpdateFits-AdmitsMode :
    (t : SlotAppearanceTicket) (m : UpdateTattooAppearanceMode)
    → UpdateFits t
    → t.request.alpha ≢ nan
    → AdmitsMode m t.request
UpdateFits-AdmitsMode t UpdateTattooAppearanceMode.synchronize_only h n = tt
UpdateFits-AdmitsMode t UpdateTattooAppearanceMode.update_and_synchronize (k, inr x, a, b, c, d) n =
    absurd (n x)
UpdateFits-AdmitsMode t UpdateTattooAppearanceMode.update_and_synchronize (k, inl x, a, b, c, d) n =
    (
      k,
      record {
        color = x.0;
        alpha = x.1;
        glow = rw a (omega arith);
        glossiness = rw b (omega arith);
        specular_strength = rw c (omega arith);
        emissive_mult = rw d (omega arith);
      },
    )

module _ {W : Type 0} (runtime : ITattooRuntime W) (w : W)
    (catalog : NativeCatalogBrowserModel) where
  -- After any history in which each area is one of the four and no slot that is reported has a
  -- negative index, the application that the workflow is about to send passes every check of the
  -- service and reaches the runtime as it is, if both plugins are there, its tattoo has a section
  -- and a name, and its alpha is not NaN.
  pub apply_reaches_runtime :
      (cs : List Command) (t : SlotApplyTicket)
      → All IsSane cs
      → (run cs (new_workflow catalog)).pending_apply ≡ some t
      → IsReady runtime w
      → t.request.section ≢ []
      → t.request.name ≢ []
      → t.request.alpha ≢ nan
      → apply_to_slot runtime t.request w ≡ runtime.apply_to_slot t.request w
  apply_reaches_runtime cs t k e ready section name number =
      let real = run-HasRealSlots cs (new_workflow catalog) k (omega arith) in
      let (natural, area) = rw e at real.apply in
      let (player, color, unit) = rw e at (run-new-IsInRange catalog cs).apply in
      forwarded _ _ w (apply_to_slot-Forwards runtime w t.request) (
        ready,
        record {
          actor = omega (arith, player);
          area = area;
          slot = natural;
          section = section;
          name = name;
          alpha = UnitOrNan-InUnit t.request.alpha unit number;
        },
      )

  -- After any history in which each area is one of the four and no slot that is reported has a
  -- negative index, the removal that the workflow is about to send passes every check of the
  -- service and reaches the runtime as it is, if both plugins are there.
  pub remove_reaches_runtime :
      (cs : List Command) (t : SlotRemoveTicket)
      → All IsSane cs
      → (run cs (new_workflow catalog)).pending_remove ≡ some t
      → IsReady runtime w
      → remove_from_slot runtime t.request w ≡ runtime.remove_from_slot t.request w
  remove_reaches_runtime cs t k e ready =
      let real = run-HasRealSlots cs (new_workflow catalog) k (omega arith) in
      let (natural, area, actor) = rw e at real.remove in
      forwarded _ _ w (remove_from_slot-Forwards runtime w t.request)
        (ready, record { actor = actor; area = area; slot = natural })

  -- After any history the update that the workflow is about to send passes every check of the
  -- service and reaches the runtime as it is, if both plugins are there, the slots named an actor,
  -- and its alpha is not NaN.
  pub update_reaches_runtime :
      (cs : List Command) (t : SlotAppearanceTicket)
      → (run cs (new_workflow catalog)).pending_appearance ≡ some t
      → IsReady runtime w
      → t.request.actor_form_id ≢ 0
      → t.request.alpha ≢ nan
      → update_appearance runtime t.request w ≡ runtime.update_appearance t.request w
  update_reaches_runtime cs t e ready actor number =
      let fits = rw e at (run-new-IsInRange catalog cs).update in
      forwarded _ _ w (update_appearance-Forwards runtime w t.request)
        (ready, (actor, UpdateFits-AdmitsMode t t.request.mode fits number))
