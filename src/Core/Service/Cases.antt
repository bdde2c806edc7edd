-- ===== src/Core/Service/Cases.antt =====
-- When the service calls the runtime, and what it does when it refuses.
use slavetat_ui.Base.{
  ℕ, ◌≡◌, ◌≢◌, ◌↔◌, ◌&&◌, ◌||◌, not, le_f, lt_f, zero_f, one_f, is_finite, refl, ◌⊎◌, inl, inr,
  arith, Bool, true, ℤ, pos, ◌≤ℤ◌, Float, fin, nan, infinity, neg_infinity, [], ◌^◌,
}
use slavetat_ui.Core.Models.{
  TattooArea, body, face, hands, feet, other, ApplyTattooRequest, RemoveTattooRequest,
  UpdateTattooAppearanceRequest, UpdateTattooAppearanceMode, ServiceError, Expected, ok, unexpected,
}
use slavetat_ui.Core.Runtime.{ITattooRuntime}
use slavetat_ui.Core.Service.{
  guarded, in_color_range, is_valid_area, is_finite_non_negative, apply_to_slot, remove_from_slot,
  update_appearance, appearance_checks, slot_checks, apply_checks, update_checks,
}

-- A number between 0 and 1.
abbrev pub InUnit : Float → Type 0
InUnit (fin z) = (pos 0 ≤ℤ z) × (z ≤ℤ pos (2 ^ 149))
InUnit x = ⊥

-- A number that is not negative.
abbrev pub IsNonNegative : Float → Type 0
IsNonNegative (fin z) = pos 0 ≤ℤ z
IsNonNegative x = ⊥

-- A colour, 0xRRGGBB.
abbrev pub InColorRange : ℤ → Type 0
InColorRange c = (pos 0 ≤ℤ c) × (c ≤ℤ pos 0xFFFFFF)

-- One of the four areas.
abbrev pub IsArea : TattooArea → Type 0
IsArea (other n) = ⊥
IsArea a = Unit {0}

-- What a remove request needs, once the plugins are there.
pub record AdmitsRemove (r : RemoveTattooRequest) : Type 0 where
  pub actor : r.actor_form_id ≢ 0
  pub area : IsArea r.area
  pub slot : pos 0 ≤ℤ r.slot

pub record AdmitsApply (r : ApplyTattooRequest) : Type 0 where
  pub actor : r.actor_form_id ≢ 0
  pub area : IsArea r.area
  pub slot : pos 0 ≤ℤ r.slot
  pub section : r.section ≢ []
  pub name : r.name ≢ []
  pub alpha : InUnit r.alpha

pub record AdmitsValues (r : UpdateTattooAppearanceRequest) : Type 0 where
  pub color : InColorRange r.color
  pub alpha : InUnit r.alpha
  pub glow : InColorRange r.glow
  pub glossiness : IsNonNegative r.glossiness
  pub specular_strength : IsNonNegative r.specular_strength
  pub emissive_mult : IsNonNegative r.emissive_mult

-- A request that only synchronizes carries no values to check.
abbrev pub AdmitsMode : UpdateTattooAppearanceMode → UpdateTattooAppearanceRequest → Type 0
AdmitsMode UpdateTattooAppearanceMode.synchronize_only r = Unit {0}
AdmitsMode UpdateTattooAppearanceMode.update_and_synchronize r =
    (r.runtime_handle ≢ pos 0) × AdmitsValues r

abbrev pub AdmitsUpdate : UpdateTattooAppearanceRequest → Type 0
AdmitsUpdate r = (r.actor_form_id ≢ 0) × AdmitsMode r.mode r

-- A call that is let through is the runtime's; one that is refused returns an error, and nothing
-- happens to the world.
abbrev pub Forwards : {W A : Type 0} → Type 0 → Expected A × W → Expected A × W → W → Type 0
Forwards P result call w =
    (P × (result ≡ call)) ⊎ ((¬ P) × ((e : ServiceError) × (result ≡ (unexpected e, w))))

guarded-Forwards :
    {W A : Type 0} {P : Type 0} (c : Expected (Unit {0})) (call : W → Expected A × W) (w : W)
    → (c ≡ ok tt → P)
    → (P → c ≡ ok tt)
    → Forwards P (guarded c call w) (call w) w
guarded-Forwards (ok u) call w sound complete = inl (sound refl, refl)
guarded-Forwards (unexpected e) call w sound complete = inr (λ p. cc (complete p), (e, refl))

-- The tests of single values.
pub le_f-InUnit : (x : Float) → InUnit x → (le_f zero_f x && le_f x one_f) ≡ true
le_f-InUnit (fin z) h = ground arith
le_f-InUnit nan h = absurd h
le_f-InUnit infinity h = absurd h
le_f-InUnit neg_infinity h = absurd h

InUnit-le_f : (x : Float) → (le_f zero_f x && le_f x one_f) ≡ true → InUnit x
InUnit-le_f (fin z) h = ground arith
InUnit-le_f nan h = cc
InUnit-le_f infinity h = cc
InUnit-le_f neg_infinity h = cc

abbrev unit_test : Float → Bool
unit_test x = not (not (is_finite x) || lt_f x zero_f || lt_f one_f x)

unit_test-InUnit : (x : Float) → InUnit x → unit_test x ≡ true
unit_test-InUnit (fin z) h = ground arith
unit_test-InUnit nan h = absurd h
unit_test-InUnit infinity h = absurd h
unit_test-InUnit neg_infinity h = absurd h

InUnit-unit_test : (x : Float) → unit_test x ≡ true → InUnit x
InUnit-unit_test (fin z) h = ground arith
InUnit-unit_test nan h = cc
InUnit-unit_test infinity h = cc
InUnit-unit_test neg_infinity h = cc

finite_test : (x : Float) → (is_finite_non_negative x ≡ true) ↔ IsNonNegative x
finite_test (fin z) = (λ h. ground arith, λ h. ground arith)
finite_test nan = (λ h. cc, λ h. absurd h)
finite_test infinity = (λ h. cc, λ h. absurd h)
finite_test neg_infinity = (λ h. cc, λ h. absurd h)

color_test : (c : ℤ) → (in_color_range c ≡ true) ↔ InColorRange c
color_test c = (λ h. ground arith, λ h. ground arith)

IsArea-test : (a : TattooArea) → (is_valid_area a ≡ true) ↔ IsArea a
IsArea-test body = (λ h. tt, λ h. refl)
IsArea-test face = (λ h. tt, λ h. refl)
IsArea-test hands = (λ h. tt, λ h. refl)
IsArea-test feet = (λ h. tt, λ h. refl)
IsArea-test (other n) = (λ h. cc, λ h. absurd h)

appearance_checks_sound :
    (r : UpdateTattooAppearanceRequest) → appearance_checks r ≡ ok tt → AdmitsValues r
unfolding appearance_checks
appearance_checks_sound r h = ground (
  arith,
  color_test r.color,
  color_test r.glow,
  InUnit-unit_test r.alpha,
  finite_test r.glossiness,
  finite_test r.specular_strength,
  finite_test r.emissive_mult,
)

appearance_checks_complete :
    (r : UpdateTattooAppearanceRequest) → AdmitsValues r → appearance_checks r ≡ ok tt
unfolding appearance_checks
appearance_checks_complete r h = rw (
  (color_test r.color).1 h.color,
  unit_test-InUnit r.alpha h.alpha,
  (color_test r.glow).1 h.glow,
  (finite_test r.glossiness).1 h.glossiness,
  (finite_test r.specular_strength).1 h.specular_strength,
  (finite_test r.emissive_mult).1 h.emissive_mult,
)

module _ {W : Type 0} (runtime : ITattooRuntime W) (w : W) where
  abbrev pub IsReady : Type 0
  IsReady = (runtime.api_available w ≡ true) × (runtime.jcontainers_ready w ≡ true)

  slot_checks_sound :
      (n : ℕ) (a : TattooArea) (s : ℤ)
      → slot_checks runtime n a s w ≡ ok tt
      → IsReady × (n ≢ 0) × (is_valid_area a ≡ true) × (pos 0 ≤ℤ s)
  unfolding slot_checks
  slot_checks_sound n a s h = ground arith

  slot_checks_complete :
      (n : ℕ) (a : TattooArea) (s : ℤ)
      → IsReady
      → n ≢ 0
      → is_valid_area a ≡ true
      → pos 0 ≤ℤ s
      → slot_checks runtime n a s w ≡ ok tt
  unfolding slot_checks
  slot_checks_complete n a s r h k l = ground arith

  -- A removal reaches the runtime, as it is, exactly if both plugins are there, its actor is not 0,
  -- its area is one of the four and its slot is not negative; any other is refused with an error,
  -- and the world is unchanged.
  pub remove_from_slot-Forwards :
      (r : RemoveTattooRequest)
      → Forwards
          (IsReady × AdmitsRemove r)
          (remove_from_slot runtime r w)
          (runtime.remove_from_slot r w)
          w
  unfolding remove_from_slot
  remove_from_slot-Forwards r =
      guarded-Forwards (slot_checks runtime r.actor_form_id r.area r.slot w) _ w
        (λ h.
          let f = slot_checks_sound r.actor_form_id r.area r.slot h in
          (f.0, record { actor = f.1; area = (IsArea-test r.area).0 f.2; slot = f.3 }))
        (λ h.
          slot_checks_complete r.actor_form_id r.area r.slot h.0 h.1.actor
            ((IsArea-test r.area).1 h.1.area) h.1.slot)

  apply_checks_sound :
      (r : ApplyTattooRequest) → apply_checks runtime r w ≡ ok tt → IsReady × AdmitsApply r
  unfolding apply_checks
  apply_checks_sound r h = ground (
    arith,
    slot_checks_sound r.actor_form_id r.area r.slot,
    IsArea-test r.area,
    InUnit-le_f r.alpha,
  )

  apply_checks_complete :
      (r : ApplyTattooRequest) → IsReady × AdmitsApply r → apply_checks runtime r w ≡ ok tt
  unfolding apply_checks
  apply_checks_complete r h =
      rw
        (
          slot_checks_complete r.actor_form_id r.area r.slot h.0 h.1.actor
              ((IsArea-test r.area).1 h.1.area) h.1.slot,
          le_f-InUnit r.alpha h.1.alpha,
        )
        (ground arith)

  -- An application reaches the runtime, as it is, exactly if both plugins are there, its actor is
  -- not 0, its area is one of the four, its slot is not negative, its section and name are not
  -- empty and its alpha is a number between 0 and 1; any other is refused with an error, and the
  -- world is unchanged.
  pub apply_to_slot-Forwards :
      (r : ApplyTattooRequest)
      → Forwards (IsReady × AdmitsApply r) (apply_to_slot runtime r w) (runtime.apply_to_slot r w) w
  unfolding apply_to_slot
  apply_to_slot-Forwards r =
      guarded-Forwards (apply_checks runtime r w) _ w (apply_checks_sound r)
        (apply_checks_complete r)

  update_checks_sound :
      (r : UpdateTattooAppearanceRequest)
      → update_checks runtime r w ≡ ok tt
      → IsReady × AdmitsUpdate r
  unfolding update_checks
  update_checks_sound r h = ground (arith, appearance_checks_sound r)

  update_checks_complete :
      (r : UpdateTattooAppearanceRequest)
      → IsReady × AdmitsUpdate r
      → update_checks runtime r w ≡ ok tt
  unfolding update_checks
  update_checks_complete r h = ground (arith, appearance_checks_complete r)

  -- An update reaches the runtime, as it is, exactly if both plugins are there, its actor is not 0
  -- and, unless it only synchronizes, its handle is not 0 and its values are in range; any other is
  -- refused with an error, and the world is unchanged.
  pub update_appearance-Forwards :
      (r : UpdateTattooAppearanceRequest)
      → Forwards
          (IsReady × AdmitsUpdate r)
          (update_appearance runtime r w)
          (runtime.update_appearance r w)
          w
  unfolding update_appearance
  update_appearance-Forwards r =
      guarded-Forwards (update_checks runtime r w) _ w (update_checks_sound r)
        (update_checks_complete r)

  -- An application, a removal and an update each reach the runtime, as they are, exactly if both
  -- plugins are there, the actor is not 0, and: for an application and a removal, the area is one
  -- of the four and the slot is not negative; for an application, the section and the name are not
  -- empty and the alpha is a number between 0 and 1; for an update that does not only synchronize,
  -- the handle is not 0 and the values are in range. Any other is refused with an error, and the
  -- world is unchanged.
  pub calls-Forwards :
      (a : ApplyTattooRequest) (r : RemoveTattooRequest) (u : UpdateTattooAppearanceRequest)
      → Forwards (IsReady × AdmitsApply a) (apply_to_slot runtime a w) (runtime.apply_to_slot a w) w
        × Forwards
            (IsReady × AdmitsRemove r)
            (remove_from_slot runtime r w)
            (runtime.remove_from_slot r w)
            w
        × Forwards
            (IsReady × AdmitsUpdate u)
            (update_appearance runtime u w)
            (runtime.update_appearance u w)
            w
  calls-Forwards a r u =
      (apply_to_slot-Forwards a, remove_from_slot-Forwards r, update_appearance-Forwards u)
