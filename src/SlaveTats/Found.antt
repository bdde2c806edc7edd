-- ===== src/SlaveTats/Found.antt =====
-- What `querySlots` looks up first: the actor, the area's name and the external slots.
use slavetat_ui.Base.{
  ℕ, ◌≡◌, refl, inl, inr, Option-cases, Bool-cases, ℤ, pos_part, false, Text, codes, List, map,
  some,
}
use slavetat_ui.Core.Models.{TattooArea, body, face, hands, feet, other, Expected, ok, unexpected}
use slavetat_ui.SlaveTats.JContainers.{
  array_object, array_count, array_get_int, add_to_pool, clean_pool,
}
use slavetat_ui.SlaveTats.Calls.{
  Game, from_to, area_name, new_array, array_ints, guard_pool, query_external_slots, continue, pure,
  ◌>>=◌,
}
use slavetat_ui.SlaveTats.Slots.{find_actor, find_external}

-- What holds of the value and the world of a call that is no error.
abbrev pub Ends : {X V : Type 0} → (X → V → Type 0) → Expected X × V → Type 0
Ends P (ok x, w) = P x w
Ends P (unexpected e, w) = Unit

-- The names of the areas for SlaveTatsNG.
abbrev pub IsAreaName : TattooArea → Text → Type 0
IsAreaName body name = name ≡ codes "BODY"
IsAreaName face name = name ≡ codes "FACE"
IsAreaName hands name = name ≡ codes "HANDS"
IsAreaName feet name = name ≡ codes "FEET"
IsAreaName (other n) name = ⊥

area_name-IsAreaName :
    (area : TattooArea) (name : Text) → area_name area ≡ some name → IsAreaName area name
area_name-IsAreaName body name h = cc
area_name-IsAreaName face name h = cc
area_name-IsAreaName hands name h = cc
area_name-IsAreaName feet name h = cc
area_name-IsAreaName (other n) name h = cc

abbrev pool : Text
pool = codes "SlaveTatsUI-querySlotsExternal"

module _ {A W : Type 0} (game : Game A W) where
  -- The external slots as SlaveTatsNG put them into a new array in a pool, which was cleaned last.
  pub record IsReport (actor : A) (area : Text) (before : W) (external : List ℤ) (after : W)
      : Type 0 where
    pub array : ℤ
    pub made : W
    pub array_made :
        let (object, w) = array_object game.jc before in
        add_to_pool game.jc object pool w ≡ (array, made)
    pub answered : W
    pub filled : game.api.external_slots actor area array made ≡ (false, answered)
    pub read :
        external
        ≡ map
            (λ index. array_get_int game.jc array index answered)
            (from_to 0 (pos_part (array_count game.jc array answered)))
    pub cleaned : after ≡ clean_pool game.jc pool answered

  -- The actor, the area's name and the external slots are those of the form, the area and the
  -- report.
  abbrev pub Finds : ℕ → TattooArea → W → A × Text × List ℤ → W → Type 0
  Finds actor_form_id area w (handle, name, external) w' =
      (game.lookup_actor actor_form_id w ≡ some handle)
      × IsAreaName area name
      × IsReport handle name w external w'

  query_external_slots-IsReport :
      (actor : A) (area : Text) (w : W)
      → Ends (IsReport actor area w) (query_external_slots game actor area pool w)
  unfolding query_external_slots guard_pool new_array array_ints ◌>>=◌
  query_external_slots-IsReport actor area w =
      let (array, made) = new_array game pool w in
      elim (Bool-cases (game.api.external_slots actor area array made).0) [
        | inl e ↦ rw e tt
        | inr e ↦ rw e (record {
          array = array;
          made = made;
          array_made = refl;
          answered = (game.api.external_slots actor area array made).1;
          filled = rw (← e) refl;
          read = refl;
          cleaned = refl;
        })
      ]

  query_external-Finds :
      (actor_form_id : ℕ) (area : TattooArea) (w : W) (handle : A) (name : Text)
      → game.lookup_actor actor_form_id w ≡ some handle
      → IsAreaName area name
      → (p : Expected (List ℤ) × W) → Ends (IsReport handle name w) p
      → Ends (Finds actor_form_id area w) (continue (λ external. pure (handle, name, external)) p)
  query_external-Finds actor_form_id area w handle name e f (ok external, w') h = (e, f, h)
  query_external-Finds actor_form_id area w handle name e f (unexpected x, w') h = tt

  pub find_external-Finds :
      (actor_form_id : ℕ) (area : TattooArea) (w : W)
      → Ends (Finds actor_form_id area w) (find_external game actor_form_id area w)
  unfolding find_external find_actor ◌>>=◌
  find_external-Finds actor_form_id area w =
      elim (Option-cases (game.lookup_actor actor_form_id w)) [
        | inl e ↦ rw e tt
        | inr (handle, e) ↦ elim (Option-cases (area_name area)) [
          | inl f ↦ rw (e, f) tt
          | inr (name, f) ↦
              rw (e, f)
                (query_external-Finds actor_form_id area w handle name e
                  (area_name-IsAreaName area name f) _
                  (query_external_slots-IsReport handle name w))
        ]
      ]
