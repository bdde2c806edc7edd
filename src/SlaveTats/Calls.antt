-- ===== src/SlaveTats/Calls.antt =====
-- A call: it may fail, and changes the game. SlaveTatsNG's functions, whose `true` is a failure, the look-up of
-- a form, and the arithmetic of `float` are parameters.
use slavetat_ui.Base.{
  ℕ, ◌+◌, ℤ, pos, pos_part, ◌==ℤ◌, clamp_f, Float, zero_f, one_f, any_of, Bool, if◌then◌else◌,
  String, Text, codes, List, [], ◌∷◌, map, Option, none, some, zero, suc,
}
use slavetat_ui.Core.Models.{
  TattooArea, body, face, hands, feet, other, ServiceErrorCode, slot_query_failed, Expected, ok,
  unexpected, fail,
}
use slavetat_ui.SlaveTats.JContainers.{
  JContainers, array_object, array_count, array_get_obj, array_get_int, map_get_int, map_get_flt,
  map_set_int, map_set_flt, add_to_pool, clean_pool,
}

pub record Addresses (A W : Type 0) : Type 0 where
  pub query_available_tattoos : ℤ → Text → W → Bool × W
  pub query_applied_tattoos : A → ℤ → W → Bool × W
  pub external_slots : A → Text → ℤ → W → Bool × W
  pub get_applied_tattoo_in_slot : A → Text → ℤ → W → ℤ × W
  pub add_and_get_tattoo : A → ℤ → ℤ → W → ℤ × W
  pub remove_tattoo_from_slot : A → Text → ℤ → W → Bool × W
  pub synchronize_tattoos : A → W → Bool × W

-- `one_minus x` is `1.0F - x`, which rounds.
pub record Game (A W : Type 0) : Type 0 where
  pub api : Addresses A W
  pub jc : JContainers A W
  pub lookup_actor : ℕ → W → Option A
  pub one_minus : Float → Float

abbrev pub Action : Type 0 → Type 0 → Type 0
Action W X = W → Expected X × W

module _ {W : Type 0} where
  abbrev pub continue : {X Y : Type 0} → (X → Action W Y) → Expected X × W → Expected Y × W
  continue f (ok x, w) = f x w
  continue f (unexpected e, w) = (unexpected e, w)

  infixl 5 ◌>>=◌ ◌>>◌
  unfoldable pub ◌>>=◌ : {X Y : Type 0} → Action W X → (X → Action W Y) → Action W Y
  ◌>>=◌ m f w = continue f (m w)

  abbrev pub ◌>>◌ : {Y : Type 0} → Action W (Unit {0}) → Action W Y → Action W Y
  m >> k = m >>= λ _. k

  abbrev pub pure : {X : Type 0} → X → Action W X
  pure x w = (ok x, w)

  -- A call that cannot fail, one that changes the game only, and a look at the game.
  abbrev pub call : {X : Type 0} → (W → X × W) → Action W X
  call f w = (ok (f w).0, (f w).1)

  abbrev pub change : (W → W) → Action W (Unit {0})
  change f w = (ok tt, f w)

  abbrev pub read : {X : Type 0} → (W → X) → Action W X
  read f w = (ok (f w), w)

  abbrev pub stop_if : Bool → ServiceErrorCode → String → Action W (Unit {0})
  stop_if test code message w = (if test then fail code message else ok tt, w)

  abbrev pub fail_if : (W → Bool × W) → ServiceErrorCode → String → Action W (Unit {0})
  fail_if f code message = call f >>= λ failed. stop_if failed code message

  abbrev pub some_or : {X : Type 0} → Option X → ServiceErrorCode → String → Action W X
  some_or none code message w = (fail code message, w)
  some_or (some x) code message w = (ok x, w)

abbrev pub area_name : TattooArea → Option Text
area_name body = some (codes "BODY")
area_name face = some (codes "FACE")
area_name hands = some (codes "HANDS")
area_name feet = some (codes "FEET")
area_name (other n) = none

-- The values of a counted loop.
abbrev pub from_to : ℕ → ℕ → List ℤ
from_to first zero = []
from_to first (suc n) = pos first ∷ from_to (first + 1) n

module _ {A W : Type 0} (game : Game A W) where
  -- `toSlaveTatsInvertedAlpha` and `fromSlaveTatsInvertedAlpha`.
  abbrev pub inverted_alpha : Float → Float
  inverted_alpha alpha = game.one_minus (clamp_f alpha zero_f one_f)

  -- A new array in a pool.
  unfoldable pub new_array : Text → W → ℤ × W
  unfolding array_object add_to_pool
  new_array pool w = let (array, w') = array_object game.jc w in add_to_pool game.jc array pool w'

  -- `JContainerPoolGuard`: the pool is cleaned at the end, after an error too.
  unfoldable pub guard_pool : {X : Type 0} → Text → Action W X → Action W X
  unfolding clean_pool
  guard_pool pool m w = let (r, w') = m w in (r, clean_pool game.jc pool w')

  -- The values of an array, as a loop over its count reads them. For a negative count that is none, where
  -- a source that reserves room for them first would throw.
  unfoldable pub array_ints : ℤ → W → List ℤ
  unfolding array_count array_get_int
  array_ints array w =
      map (λ index. array_get_int game.jc array index w)
        (from_to 0 (pos_part (array_count game.jc array w)))

  unfoldable pub array_objs : ℤ → W → List ℤ
  unfolding array_count array_get_obj
  array_objs array w =
      map (λ index. array_get_obj game.jc array index w)
        (from_to 0 (pos_part (array_count game.jc array w)))

  unfoldable pub query_external_slots : A → Text → Text → Action W (List ℤ)
  unfolding new_array array_ints
  query_external_slots actor area pool = do
    matches ← call (new_array pool)
    guard_pool pool do
      fail_if (game.api.external_slots actor area matches) slot_query_failed "external_slots failed"
      read (array_ints matches)

  -- `TattooTemplateAppearanceGuard`: the template has the appearance for the time of the call.
  unfoldable pub with_appearance : {X : Type 0} → ℤ → ℤ → Float → (W → X × W) → W → X × W
  unfolding map_get_int map_get_flt map_set_int map_set_flt
  with_appearance tattoo color alpha f w =
      let old_color = map_get_int game.jc tattoo (codes "color") (pos 0) w in
      let old_alpha = map_get_flt game.jc tattoo (codes "invertedAlpha") zero_f w in
      let w1 = map_set_int game.jc tattoo (codes "color") color w in
      let w2 = map_set_flt game.jc tattoo (codes "invertedAlpha") (inverted_alpha alpha) w1 in
      let (x, w3) = f w2 in
      let w4 = map_set_int game.jc tattoo (codes "color") old_color w3 in
      (x, map_set_flt game.jc tattoo (codes "invertedAlpha") old_alpha w4)

abbrev pub contains_int : List ℤ → ℤ → Bool
contains_int xs x = any_of (λ y. y ==ℤ x) xs
