-- ===== src/SlaveTats/Keeps.antt =====
-- Parts of the game that calls leave as they are.
use slavetat_ui.Base.{ℕ, ◌≡◌, refl, ◌∙◌, ℤ, Bool, Text, String, Option, none, some}
use slavetat_ui.Core.Models.{TattooArea, Expected, ok, unexpected, ServiceErrorCode}
use slavetat_ui.SlaveTats.JContainers.{array_object, add_to_pool, clean_pool, form_set_int}
use slavetat_ui.SlaveTats.Calls.{
  Game, Action, continue, ◌>>=◌, pure, call, change, read, stop_if, fail_if, some_or, area_name,
  new_array, guard_pool, query_external_slots,
}
use slavetat_ui.SlaveTats.Slots.{find_actor}
use slavetat_ui.SlaveTats.Operations.{check_external}

-- A call that leaves a view of the game as it was, whatever it returns.
unfoldable pub Keeps : {W V X : Type 0} → (W → V) → Action W X → Type 0
Keeps view m = (w : _) → view (m w).1 ≡ view w

-- What is queried leaves the view as it was: new arrays and pools, and SlaveTatsNG's two queries.
pub record QueriesKeep {A W V : Type 0} (game : Game A W) (view : W → V) : Type 0 where
  pub object : (w : W) → view (array_object game.jc w).1 ≡ view w
  pub pooled : (o : ℤ) (pool : Text) (w : W) → view (add_to_pool game.jc o pool w).1 ≡ view w
  pub cleaned : (pool : Text) (w : W) → view (clean_pool game.jc pool w) ≡ view w
  pub external :
      (actor : A) (area : Text) (matches : ℤ) (w : W)
      → view (game.api.external_slots actor area matches w).1 ≡ view w
  pub available :
      (matches : ℤ) (domain : Text) (w : W)
      → view (game.api.query_available_tattoos matches domain w).1 ≡ view w

-- What ends an operation leaves the view as it was: the actor is marked, and its overlays are synchronized.
pub record SynchronizingKeeps {A W V : Type 0} (game : Game A W) (view : W → V) : Type 0 where
  pub marked :
      (actor : A) (path : Text) (v : ℤ) (w : W)
      → view (form_set_int game.jc actor path v w) ≡ view w
  pub synchronized : (actor : A) (w : W) → view (game.api.synchronize_tattoos actor w).1 ≡ view w

module _ {W V : Type 0} (view : W → V) where
  continue-Keeps :
      {X Y : Type 0} (f : X → Action W Y) (p : Expected X × W)
      → ((x : X) → Keeps view (f x))
      → view (continue f p).1 ≡ view p.1
  unfolding Keeps
  continue-Keeps f (ok x, w) h = h x w
  continue-Keeps f (unexpected e, w) h = refl

  pub bind-Keeps :
      {X Y : Type 0} (m : Action W X) (f : X → Action W Y)
      → Keeps view m
      → ((x : X) → Keeps view (f x))
      → Keeps view (m >>= f)
  unfolding Keeps ◌>>=◌
  bind-Keeps m f h k w = continue-Keeps f (m w) k ∙ h w

  pub some_or-Keeps :
      {X : Type 0} (o : Option X) (code : ServiceErrorCode) (message : String)
      → Keeps view (some_or o code message)
  unfolding Keeps
  some_or-Keeps none code message w = refl
  some_or-Keeps (some x) code message w = refl

  -- Calls by what they do to the game, and those that do nothing to it.
  pub call-Keeps :
      {X : Type 0} (f : W → X × W) → ((w : W) → view (f w).1 ≡ view w) → Keeps view (call f)
  unfolding Keeps
  call-Keeps f h w = h w

  pub change-Keeps : (f : W → W) → ((w : W) → view (f w) ≡ view w) → Keeps view (change f)
  unfolding Keeps
  change-Keeps f h w = h w

  pub read-Keeps : {X : Type 0} (f : W → X) → Keeps view (read f)
  unfolding Keeps
  read-Keeps f w = refl

  pub pure-Keeps : {X : Type 0} (x : X) → Keeps view (pure x)
  unfolding Keeps
  pure-Keeps x w = refl

  pub stop_if-Keeps :
      (test : Bool) (code : ServiceErrorCode) (message : String)
      → Keeps view (stop_if test code message)
  unfolding Keeps
  stop_if-Keeps test code message w = refl

  pub fail_if-Keeps :
      (f : W → Bool × W) (code : ServiceErrorCode) (message : String)
      → ((w : W) → view (f w).1 ≡ view w)
      → Keeps view (fail_if f code message)
  fail_if-Keeps f code message h =
      bind-Keeps (call f) _ (call-Keeps f h) λ failed. stop_if-Keeps failed code message

module _ {A W V : Type 0} (game : Game A W) (view : W → V) (h : QueriesKeep game view) where
  pub new_array-Keeps : (pool : Text) → Keeps view (call (new_array game pool))
  unfolding new_array
  new_array-Keeps pool = call-Keeps view (new_array game pool) λ w. h.pooled _ pool _ ∙ h.object w

  pub guard_pool-Keeps :
      {X : Type 0} (pool : Text) (m : Action W X)
      → Keeps view m
      → Keeps view (guard_pool game pool m)
  unfolding Keeps guard_pool
  guard_pool-Keeps pool m k w = h.cleaned pool _ ∙ k w

  pub find_actor-Keeps :
      (actor_form_id : ℕ) (area : TattooArea) → Keeps view (find_actor game actor_form_id area)
  unfolding find_actor
  find_actor-Keeps actor_form_id area =
      bind-Keeps view _ _ (read-Keeps view (game.lookup_actor actor_form_id)) λ found.
        bind-Keeps view _ _ (some_or-Keeps view found _ _) λ actor.
          bind-Keeps view _ _ (some_or-Keeps view (area_name area) _ _) λ name. pure-Keeps view _

  query_external_slots-Keeps :
      (actor : A) (area pool : Text) → Keeps view (query_external_slots game actor area pool)
  unfolding query_external_slots
  query_external_slots-Keeps actor area pool = bind-Keeps view _ _ (new_array-Keeps pool) λ matches.
      guard_pool-Keeps pool _ (
        bind-Keeps view _ _
          (fail_if-Keeps view (game.api.external_slots actor area matches) _ _
            (h.external actor area matches))
          λ u. read-Keeps view _)

  pub check_external-Keeps :
      (actor : A) (area : Text) (slot : ℤ) (pool : Text)
      → Keeps view (check_external game actor area slot pool)
  unfolding check_external
  check_external-Keeps actor area slot pool =
      bind-Keeps view _ _ (query_external_slots-Keeps actor area pool)
        λ external. stop_if-Keeps view _ _ _
