-- ===== src/SlaveTats/Entries.antt =====
-- The slots that `querySlots` gives, one by one: what the fields of a tattoo's map become.
use slavetat_ui.Base.{
  ◌≡◌, ◌≢◌, ◌⊎◌, inl, inr, refl, arith, Bool-cases, ℤ, pos, ◌==ℤ◌, ==ℤ_iff, any_of_iff, Memᴰ, Float,
  clamp_f, zero_f, one_f, Bool, true, false, Text, codes, List, [], some, none,
}
use slavetat_ui.Core.Models.{TattooEntry, TattooSlot, SlotOccupancy}
use slavetat_ui.SlaveTats.JContainers.{map_get_str, map_get_int, map_get_flt}
use slavetat_ui.SlaveTats.Calls.{Game, contains_int}
use slavetat_ui.SlaveTats.Available.{entry_of_map}
use slavetat_ui.SlaveTats.Slots.{applied_entry, slot_of}

-- A colour of 0 in a map is white.
abbrev IsColor : ℤ → ℤ → Type 0
IsColor raw color = ((raw ≡ pos 0) × (color ≡ pos 0xFFFFFF)) ⊎ ((raw ≢ pos 0) × (color ≡ raw))

abbrev IsFlag : ℤ → Bool → Type 0
IsFlag raw flag = ((raw ≡ pos 0) × (flag ≡ false)) ⊎ ((raw ≢ pos 0) × (flag ≡ true))

module _ {A W : Type 0} (game : Game A W) (area : Text) (slot tattoo : ℤ) (w : W) where
  -- The values of the tattoo's map, as the game has them.
  abbrev text : Text → Text → Text
  text key def = map_get_str game.jc tattoo key def w

  abbrev int : Text → ℤ
  int key = map_get_int game.jc tattoo key (pos 0) w

  abbrev float : Text → Float → Float
  float key def = map_get_flt game.jc tattoo key def w

  -- The entry of a tattoo in a slot of an area, field by field.
  pub record IsEntry (e : TattooEntry) : Type 0 where
    pub handle : e.runtime_handle ≡ tattoo
    pub place : (e.area ≡ area) × (e.slot ≡ slot)
    pub domain : e.domain ≡ text (codes "domain") (codes "default")
    pub section : e.section ≡ text (codes "section") []
    pub name : e.name ≡ text (codes "name") []
    pub texture : e.texture_path ≡ text (codes "texture") []
    pub bump : e.bump ≡ text (codes "bump") []
    pub glow_texture : e.glow_texture ≡ text (codes "glowTexture") []
    pub color : IsColor (int (codes "color")) e.color
    pub locked : IsFlag (int (codes "locked")) e.locked
    pub glow : e.glow ≡ int (codes "glow")
    pub alpha :
        e.alpha ≡ game.one_minus (clamp_f (float (codes "invertedAlpha") zero_f) zero_f one_f)
    pub glossiness : e.glossiness ≡ float (codes "glossiness") zero_f
    pub specular_strength : e.specular_strength ≡ float (codes "specularStrength") zero_f
    pub emissive_mult : e.emissive_mult ≡ float (codes "emissiveMult") one_f

  -- The slot with this index, given its tattoo (0 for none) and the slots reported as external.
  pub data IsSlot (external : List ℤ) (s : TattooSlot) : Type 0 where
    worn :
        (e : TattooEntry)
        → tattoo ≢ pos 0
        → s ≡ record { index = slot; occupancy = SlotOccupancy.slave_tats; tattoo = some e }
        → IsEntry e
        → IsSlot external s
    taken :
        tattoo ≡ pos 0
        → Memᴰ slot external
        → s ≡ record { index = slot; occupancy = SlotOccupancy.external; tattoo = none }
        → IsSlot external s
    free :
        tattoo ≡ pos 0
        → (Memᴰ slot external → ⊥)
        → s ≡ record { index = slot; occupancy = SlotOccupancy.empty; tattoo = none }
        → IsSlot external s

  applied_entry-IsEntry : IsEntry (applied_entry game area slot w tattoo)
  unfolding applied_entry entry_of_map
  applied_entry-IsEntry = record {
    handle = refl;
    place = (refl, refl);
    domain = refl;
    section = refl;
    name = refl;
    texture = refl;
    bump = refl;
    glow_texture = refl;
    color = ground (arith, ==ℤ_iff (int (codes "color")) (pos 0));
    locked = ground (arith, ==ℤ_iff (int (codes "locked")) (pos 0));
    glow = refl;
    alpha = refl;
    glossiness = refl;
    specular_strength = refl;
    emissive_mult = refl;
  }

  pub slot_of-IsSlot :
      (external : List ℤ) → IsSlot external (slot_of game area external slot w tattoo)
  unfolding slot_of
  slot_of-IsSlot external = elim (Bool-cases (tattoo ==ℤ pos 0)) [
    | inr e ↦
        rw (e, slot_of)
          (IsSlot.worn _ (λ z. ground (arith, e, (==ℤ_iff tattoo (pos 0)).1 z)) refl
            applied_entry-IsEntry)
    | inl e ↦ elim (Bool-cases (contains_int external slot)) [
      | inl f ↦
          rw (e, f, slot_of)
            (IsSlot.taken ((==ℤ_iff tattoo (pos 0)).0 e) ((any_of_iff external slot).0 f) refl)
      | inr f ↦
          rw (e, f, slot_of)
            (IsSlot.free ((==ℤ_iff tattoo (pos 0)).0 e)
              (λ m. ground (arith, f, (any_of_iff external slot).1 m)) refl)
    ]
  ]
