-- ===== src/SlaveTats/Shown.antt =====
-- The slots that `querySlots` gives.
use slavetat_ui.Base.{
  ℕ, ◌+◌, ◌≡◌, refl, arith, ℤ, pos, pos_part, Text, List, [], ◌∷◌, map, some, zero, suc,
}
use slavetat_ui.Core.Models.{
  TattooArea, body, face, hands, feet, other, TattooSlot, TattooSlots, Expected, ok, unexpected,
}
use slavetat_ui.SlaveTats.Configuration.{OverlayCounts, IniIntegerReader, count}
use slavetat_ui.SlaveTats.Calls.{Game, from_to}
use slavetat_ui.SlaveTats.Slots.{slot_of, read_slots, slots_of_actor, find_external, query_slots}
use slavetat_ui.SlaveTats.Found.{Ends, IsAreaName, IsReport, Finds, find_external-Finds}
use slavetat_ui.SlaveTats.Entries.{IsSlot, slot_of-IsSlot}

module _ {W : Type 0} (reader : IniIntegerReader W) where
  count-cached :
      (area : TattooArea) (c : OverlayCounts) (w v : W)
      → let (n, (c', w')) = count reader area (c, w) in count reader area (c', v) ≡ (n, (c', v))
  unfolding count
  count-cached body c w v = ground arith
  count-cached face c w v = ground arith
  count-cached hands c w v = ground arith
  count-cached feet c w v = ground arith
  count-cached (other n) c w v = refl

module _ {A W : Type 0} (game : Game A W) (actor : A) (area : Text) (external : List ℤ) where
  -- The slots from an index on, read one after the other, from one world to another: each from what
  -- SlaveTatsNG returned for its index, and in the world that call left.
  pub data AreRead : ℕ → W → List TattooSlot → W → Type 0 where
    end : {slot : ℕ} {w : W} → AreRead slot w [] w
    next :
        {slot : ℕ} {w w1 w2 : W} {s : TattooSlot} {slots : List TattooSlot}
        → (tattoo : ℤ) → game.api.get_applied_tattoo_in_slot actor area (pos slot) w ≡ (tattoo, w1)
        → IsSlot game area (pos slot) tattoo w1 external s
        → AreRead (slot + 1) w1 slots w2
        → AreRead slot w (s ∷ slots) w2

  read_slots-AreRead :
      (slot rounds : ℕ) (w : W)
      → let (slots, w') = read_slots game actor area external slot rounds w in
        AreRead slot w slots w'
  unfolding read_slots
  read_slots-AreRead slot zero w = AreRead.end
  read_slots-AreRead slot (suc rounds) w =
      let (tattoo, w1) = game.api.get_applied_tattoo_in_slot actor area (pos slot) w in
      AreRead.next tattoo refl (slot_of-IsSlot game area (pos slot) tattoo w1 external)
        (read_slots-AreRead (slot + 1) rounds w1)

  slot_of-index :
      (slot : ℤ) (w : W) (tattoo : ℤ) → (slot_of game area external slot w tattoo).index ≡ slot
  unfolding slot_of
  slot_of-index slot w tattoo = ground arith

  read_slots-indices :
      (slot rounds : ℕ) (w : W)
      → map (λ s. s.index) (read_slots game actor area external slot rounds w).0
        ≡ from_to slot rounds
  unfolding read_slots
  read_slots-indices slot zero w = refl
  read_slots-indices slot (suc rounds) w =
      let (tattoo, w1) = game.api.get_applied_tattoo_in_slot actor area (pos slot) w in
      rw (slot_of-index (pos slot) w1 tattoo, read_slots-indices (slot + 1) rounds w1) refl

module _ {A W : Type 0} (game : Game A W) where
  -- What a snapshot of an actor's slots tells of the run that made it, from the counts and the game
  -- before it to those after it.
  pub record IsSnapshot (reader : IniIntegerReader W) (actor_form_id : ℕ) (area : TattooArea)
      (before : OverlayCounts × W) (t : TattooSlots) (after : OverlayCounts × W) : Type 0 where
    pub actor : t.actor_form_id ≡ actor_form_id
    pub place : t.area ≡ area
    pub handle : A
    pub resolved : game.lookup_actor actor_form_id before.1 ≡ some handle
    pub name : Text
    pub named : IsAreaName area name
    pub external : List ℤ
    pub looked_up : W
    pub reported : IsReport game handle name before.1 external looked_up
    pub counted : W
    pub configured :
        count reader area (before.0, looked_up) ≡ (t.configured_count, (after.0, counted))
    pub indices : map (λ x. x.index) t.slots ≡ from_to 0 (pos_part t.configured_count)
    pub slots : AreRead game handle name external 0 counted t.slots after.1
    pub cached : count reader area after ≡ (t.configured_count, after)

  slots_of_actor-IsSnapshot :
      (reader : IniIntegerReader W) (actor_form_id : ℕ) (area : TattooArea) (c : OverlayCounts)
      (before : W) (found : Expected (A × Text × List ℤ) × W)
      → Ends (Finds game actor_form_id area before) found
      → Ends
          (IsSnapshot reader actor_form_id area (c, before))
          (slots_of_actor game reader actor_form_id area c found)
  unfolding slots_of_actor
  slots_of_actor-IsSnapshot reader actor_form_id area c before (unexpected e, w) h = tt
  slots_of_actor-IsSnapshot reader actor_form_id area c before (ok (actor, name, external), w) h =
      let (configured, (c', w1)) = count reader area (c, w) in
      record {
        actor = refl;
        place = refl;
        handle = actor;
        resolved = h.0;
        name = name;
        named = h.1;
        external = external;
        looked_up = w;
        reported = h.2;
        counted = w1;
        configured = refl;
        indices = read_slots-indices game actor name external 0 (pos_part configured) w1;
        slots = read_slots-AreRead game actor name external 0 (pos_part configured) w1;
        cached = count-cached reader area c w _;
      }

  -- Slots that are returned are those of the form and the area that were asked for, one for each of
  -- the indices from 0 up to the number that the area's count gave, in order. The actor, the area's
  -- name and the external slots were found first, then the count was read, and then the slots one
  -- after the other, each in the game that the one before it left, and the last in the game that is
  -- returned. Each slot is made from the tattoo that SlaveTatsNG returned for that actor, area and
  -- index: if it is not 0, the slot has its entry, whose fields are that handle, the area, the
  -- index and the values of the tattoo's map in the game after the call, under their keys and with
  -- their defaults (a colour of 0 is white, and alpha is 1 less the inverted alpha cut to its
  -- range); if it is 0, the slot is external if the report of external slots has the index, and
  -- else empty. Asking for the area's number again gives the number returned and reads nothing.
  pub query_slots-IsSnapshot :
      (reader : IniIntegerReader W) (actor_form_id : ℕ) (area : TattooArea) (c : OverlayCounts)
      (w : W) (s : OverlayCounts × W) (t : TattooSlots)
      → query_slots game reader actor_form_id area (c, w) ≡ (ok t, s)
      → IsSnapshot reader actor_form_id area (c, w) t s
  unfolding query_slots
  query_slots-IsSnapshot reader actor_form_id area c w s t h = rw h at (
      slots_of_actor-IsSnapshot reader actor_form_id area c w
        (find_external game actor_form_id area w) (find_external-Finds game actor_form_id area w))
