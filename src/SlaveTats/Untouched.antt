-- ===== src/SlaveTats/Untouched.antt =====
-- Errors before anything is written.
use slavetat_ui.Base.{◌≡◌, refl, ◌∙◌, ℤ, Bool, true, false, Text, String}
use slavetat_ui.Core.Models.{
  ServiceErrorCode, apply_failed, remove_failed, synchronize_failed, Expected, ok, unexpected,
  ApplyTattooRequest, RemoveTattooRequest, RemoveTattooMode,
}
use slavetat_ui.SlaveTats.Calls.{
  Game, Action, continue, ◌>>=◌, pure, call, change, stop_if, fail_if, guard_pool,
}
use slavetat_ui.SlaveTats.Operations.{
  apply_template, apply_available, apply_to_slot, remove_first, remove_from_slot, synchronize,
}
use slavetat_ui.SlaveTats.Keeps.{
  Keeps, QueriesKeep, read-Keeps, stop_if-Keeps, fail_if-Keeps, new_array-Keeps, find_actor-Keeps,
  check_external-Keeps, pure-Keeps,
}

-- The codes of the calls that write, and of the query before them.
abbrev pub IsLate : ServiceErrorCode → Type 0
IsLate apply_failed = Unit
IsLate remove_failed = Unit
IsLate synchronize_failed = Unit
IsLate code = ⊥

-- An error with another code.
abbrev pub IsEarly : {X : Type 0} → Expected X → Type 0
IsEarly (ok x) = ⊥
IsEarly (unexpected e) = IsLate e.code → ⊥

-- A call that leaves the view as it was when it ends with such an error, and one that never does.
unfoldable KeepsEarly : {W V X : Type 0} → (W → V) → Action W X → Type 0
KeepsEarly view m = (w : _) → IsEarly (m w).0 → view (m w).1 ≡ view w

unfoldable NeverEarly : {W X : Type 0} → Action W X → Type 0
NeverEarly m = (w : _) → IsEarly (m w).0 → ⊥

module _ {W V : Type 0} (view : W → V) where
  early_of_Keeps : {X : Type 0} (m : Action W X) → Keeps view m → KeepsEarly view m
  unfolding Keeps KeepsEarly
  early_of_Keeps m h w e = h w

  early_of_never : {X : Type 0} (m : Action W X) → NeverEarly m → KeepsEarly view m
  unfolding NeverEarly KeepsEarly
  early_of_never m h w e = absurd (h w e)

  continue-early :
      {X Y : Type 0} (f : X → Action W Y) (p : Expected X × W)
      → ((x : X) → KeepsEarly view (f x))
      → IsEarly (continue f p).0
      → view (continue f p).1 ≡ view p.1
  unfolding KeepsEarly
  continue-early f (ok x, w) h e = h x w e
  continue-early f (unexpected x, w) h e = refl

  bind-KeepsEarly :
      {X Y : Type 0} (m : Action W X) (f : X → Action W Y)
      → Keeps view m
      → ((x : X) → KeepsEarly view (f x))
      → KeepsEarly view (m >>= f)
  unfolding Keeps ◌>>=◌ KeepsEarly
  bind-KeepsEarly m f h k w e = continue-early f (m w) k e ∙ h w

  continue_last-early :
      {X Y : Type 0} (f : X → Action W Y) (p : Expected X × W) (w : W)
      → (IsEarly p.0 → view p.1 ≡ view w)
      → ((x : X) → NeverEarly (f x))
      → IsEarly (continue f p).0
      → view (continue f p).1 ≡ view w
  unfolding NeverEarly
  continue_last-early f (ok x, w') w h k e = absurd (k x w' e)
  continue_last-early f (unexpected x, w') w h k e = h e

  -- A step that may end early, before steps that do not.
  bind_last-KeepsEarly :
      {X Y : Type 0} (m : Action W X) (f : X → Action W Y)
      → KeepsEarly view m
      → ((x : X) → NeverEarly (f x))
      → KeepsEarly view (m >>= f)
  unfolding ◌>>=◌ KeepsEarly NeverEarly
  bind_last-KeepsEarly m f h k w e = continue_last-early f (m w) w (h w) k e

pure-NeverEarly : (W : Type 0) {X : Type 0} (x : X) → NeverEarly {W = W} (pure x)
unfolding NeverEarly
pure-NeverEarly W x w e = e

stop_if-NeverEarly :
    (W : Type 0) (test : Bool) (code : ServiceErrorCode) (message : String)
    → IsLate code
    → NeverEarly {W = W} (stop_if test code message)
unfolding NeverEarly
stop_if-NeverEarly W true code message l w e = e l
stop_if-NeverEarly W false code message l w e = e

module _ {W : Type 0} where
  continue-never :
      {X Y : Type 0} (f : X → Action W Y) (p : Expected X × W)
      → (IsEarly p.0 → ⊥)
      → ((x : X) → NeverEarly (f x))
      → IsEarly (continue f p).0
      → ⊥
  unfolding NeverEarly
  continue-never f (ok x, w) h k e = k x w e
  continue-never f (unexpected x, w) h k e = h e

  bind-NeverEarly :
      {X Y : Type 0} (m : Action W X) (f : X → Action W Y)
      → NeverEarly m
      → ((x : X) → NeverEarly (f x))
      → NeverEarly (m >>= f)
  unfolding NeverEarly ◌>>=◌
  bind-NeverEarly m f h k w e = continue-never f (m w) (h w) k e

  call-NeverEarly : {X : Type 0} (f : W → X × W) → NeverEarly (call f)
  unfolding NeverEarly
  call-NeverEarly f w e = e

  change-NeverEarly : (f : W → W) → NeverEarly (change f)
  unfolding NeverEarly
  change-NeverEarly f w e = e

  fail_if-NeverEarly :
      (f : W → Bool × W) (code : ServiceErrorCode) (message : String)
      → IsLate code
      → NeverEarly (fail_if f code message)
  fail_if-NeverEarly f code message l =
      bind-NeverEarly (call f) _ (call-NeverEarly f)
        λ failed. stop_if-NeverEarly _ failed code message l

module _ {A W : Type 0} (game : Game A W) where
  synchronize-NeverEarly :
      (message : String) (actor : A) → NeverEarly (synchronize game message actor)
  unfolding synchronize
  synchronize-NeverEarly message actor =
      bind-NeverEarly _ _ (change-NeverEarly _)
        λ u. fail_if-NeverEarly (game.api.synchronize_tattoos actor) _ message tt

  apply_template-NeverEarly :
      (r : ApplyTattooRequest) (actor : A) (tattoo : ℤ)
      → NeverEarly (apply_template game r actor tattoo)
  unfolding apply_template
  apply_template-NeverEarly r actor tattoo = bind-NeverEarly _ _ (call-NeverEarly _) λ applied.
      bind-NeverEarly _ _ (stop_if-NeverEarly _ _ _ _ tt)
        λ u. bind-NeverEarly _ _ (synchronize-NeverEarly _ actor) λ v. pure-NeverEarly _ _

module _ {A W V : Type 0} (game : Game A W) (view : W → V) (h : QueriesKeep game view) where
  guard_pool-KeepsEarly :
      {X : Type 0} (pool : Text) (m : Action W X)
      → KeepsEarly view m
      → KeepsEarly view (guard_pool game pool m)
  unfolding KeepsEarly guard_pool
  guard_pool-KeepsEarly pool m k w e = h.cleaned pool _ ∙ k w e

  apply_available-KeepsEarly :
      (r : ApplyTattooRequest) (actor : A) (available : ℤ)
      → KeepsEarly view (apply_available game r actor available)
  unfolding apply_available
  apply_available-KeepsEarly r actor available =
      bind-KeepsEarly view _ _
        (fail_if-Keeps view (game.api.query_available_tattoos available r.domain) _ _
          (h.available available r.domain))
        λ u. bind-KeepsEarly view _ _ (read-Keeps view _) λ tattoo.
          bind-KeepsEarly view _ _ (stop_if-Keeps view _ _ _)
            λ v. early_of_never view _ (apply_template-NeverEarly game r actor tattoo)

  apply_to_slot-KeepsEarly : (r : ApplyTattooRequest) → KeepsEarly view (apply_to_slot game r)
  unfolding apply_to_slot
  apply_to_slot-KeepsEarly r =
      bind-KeepsEarly view _ _ (find_actor-Keeps game view h r.actor_form_id r.area) λ found.
        bind-KeepsEarly view _ _ (check_external-Keeps game view h _ _ _ _) λ u.
          bind-KeepsEarly view _ _ (new_array-Keeps game view h _)
            λ available. guard_pool-KeepsEarly _ _ (apply_available-KeepsEarly r found.0 available)

  -- When applying a tattoo ends with another error than those of a failed application, removal or
  -- synchronization, any part of the game that new arrays, pools and SlaveTatsNG's two queries
  -- leave as it is is as it was before: nothing was written to a template, nothing was applied and
  -- nothing was synchronized.
  pub apply_to_slot-untouched :
      (r : ApplyTattooRequest) (w : W)
      → IsEarly (apply_to_slot game r w).0
      → view (apply_to_slot game r w).1 ≡ view w
  unfolding KeepsEarly
  apply_to_slot-untouched r w e = apply_to_slot-KeepsEarly r w e

  remove_first-KeepsEarly :
      (r : RemoveTattooRequest) (actor : A) (area : Text) (mode : RemoveTattooMode)
      → KeepsEarly view (remove_first game r actor area mode)
  unfolding remove_first
  remove_first-KeepsEarly r actor area RemoveTattooMode.synchronize_only =
      early_of_Keeps view _ (pure-Keeps view tt)
  remove_first-KeepsEarly r actor area RemoveTattooMode.remove_and_synchronize =
      bind-KeepsEarly view _ _ (check_external-Keeps game view h actor area r.slot _) λ u.
        early_of_never view _
          (fail_if-NeverEarly (game.api.remove_tattoo_from_slot actor area r.slot) _ _ tt)

  remove_from_slot-KeepsEarly :
      (r : RemoveTattooRequest) → KeepsEarly view (remove_from_slot game r)
  unfolding remove_from_slot
  remove_from_slot-KeepsEarly r =
      bind-KeepsEarly view _ _ (find_actor-Keeps game view h r.actor_form_id r.area) λ found.
        bind_last-KeepsEarly view _ _ (remove_first-KeepsEarly r found.0 found.1 r.mode)
          λ u. bind-NeverEarly _ _ (synchronize-NeverEarly game _ _) λ v. pure-NeverEarly _ _

  -- The same of a removal.
  remove_from_slot-untouched :
      (r : RemoveTattooRequest) (w : W)
      → IsEarly (remove_from_slot game r w).0
      → view (remove_from_slot game r w).1 ≡ view w
  unfolding KeepsEarly
  remove_from_slot-untouched r w e = remove_from_slot-KeepsEarly r w e
