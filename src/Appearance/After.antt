-- ===== src/Appearance/After.antt =====
-- What the writes establish, when the update returns.
use slavetat_ui.Base.{
  ◌≡◌, refl, Bool-cases, inl, inr, arith, Bool, true, false, ℤ, List, Option, none, some,
}
use slavetat_ui.Core.Models.{
  UpdateTattooAppearanceMode, UpdateTattooAppearanceRequest, UpdateTattooAppearanceSuccess,
  Expected, ok, unexpected,
}
use slavetat_ui.Appearance.{
  IUpdateTattooAppearanceBackend, contains_applied_tattoo_handle, finish, after_mark, after_write,
  after_query, after_actor, after_resolve, update_tattoo_appearance,
}

module _ {W A : Type 0} (backend : IUpdateTattooAppearanceBackend W A)
    (request : UpdateTattooAppearanceRequest) (P : W → Type 0)
    (written : (w : W)
      → (backend.write_appearance request.runtime_handle request w).0 ≡ true
      → P (backend.write_appearance request.runtime_handle request w).1)
    (marked : (actor : A) (w : W) → P w → P (backend.mark_actor_updated actor w).1)
    (synchronized : (actor : A) (w : W) → P w → P (backend.synchronize actor w).1) where
  -- It holds after a success.
  abbrev Holds : Expected UpdateTattooAppearanceSuccess × W → Type 0
  Holds (ok x, w) = P w
  Holds (unexpected e, w) = Unit

  finish-Holds : (p : Bool × W) → P p.1 → Holds (finish backend request p)
  unfolding finish
  finish-Holds (true, w) h = h
  finish-Holds (false, w) h = tt

  after_mark-Holds : (actor : A) (p : Bool × W) → P p.1 → Holds (after_mark backend request actor p)
  unfolding after_mark
  after_mark-Holds actor (true, w) h = finish-Holds _ (synchronized actor w h)
  after_mark-Holds actor (false, w) h = tt

  after_write-Holds :
      (actor : A) (p : Bool × W)
      → (p.0 ≡ true → P p.1)
      → Holds (after_write backend request actor p)
  unfolding after_write
  after_write-Holds actor (true, w) h = after_mark-Holds actor _ (marked actor w (h refl))
  after_write-Holds actor (false, w) h = tt

  after_query-Holds :
      (actor : A) (p : Expected (List ℤ) × W) → Holds (after_query backend request actor p)
  unfolding after_query
  after_query-Holds actor (unexpected e, w) = tt
  after_query-Holds actor (ok handles, w) =
      elim (Bool-cases (contains_applied_tattoo_handle handles request.runtime_handle)) [
        | inl c ↦ rw (after_query, c) (after_write-Holds actor _ (written w))
        | inr c ↦ rw (after_query, c) tt
      ]

  after_actor-Holds :
      (actor : A) (m : UpdateTattooAppearanceMode) (w : W)
      → m ≡ UpdateTattooAppearanceMode.update_and_synchronize
      → Holds (after_actor backend request actor m w)
  unfolding after_actor
  after_actor-Holds actor UpdateTattooAppearanceMode.update_and_synchronize w e =
      after_query-Holds actor _
  after_actor-Holds actor UpdateTattooAppearanceMode.synchronize_only w e = ground arith

  after_resolve-Holds :
      (p : Option A × W)
      → request.mode ≡ UpdateTattooAppearanceMode.update_and_synchronize
      → Holds (after_resolve backend request p)
  unfolding after_resolve
  after_resolve-Holds (none, w) m = tt
  after_resolve-Holds (some actor, w) m = after_actor-Holds actor request.mode w m

  -- What the writes establish, and what is left when the actor is marked and synchronized.
  pub success_holds :
      (w w' : W) (x : UpdateTattooAppearanceSuccess)
      → update_tattoo_appearance backend request w ≡ (ok x, w')
      → request.mode ≡ UpdateTattooAppearanceMode.update_and_synchronize
      → P w'
  unfolding update_tattoo_appearance
  success_holds w w' x e m =
      rw e at (after_resolve-Holds (backend.resolve_actor request.actor_form_id w) m)
