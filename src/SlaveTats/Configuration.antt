-- ===== src/SlaveTats/Configuration.antt =====
-- src/runtime/OverlaySlotConfiguration.{h,cpp}. The reader of the ini file acts on a world `W`; the settings
-- are the array's entries, by area.
use slavetat_ui.Base.{ℕ, ◌≡◌, refl, ℤ, pos, Text, codes, Option, none, some, zero, suc, arith}
use slavetat_ui.Core.Models.{TattooArea, body, face, hands, feet, other}

pub record AreaSetting : Type 0 where
  pub index : ℕ
  pub section : Text
  pub fallback : ℤ

abbrev pub setting_for : TattooArea → Option AreaSetting
setting_for body = some (record { index = 0; section = codes "Overlays/Body"; fallback = pos 12 })
setting_for face = some (record { index = 1; section = codes "Overlays/Face"; fallback = pos 3 })
setting_for hands = some (record { index = 2; section = codes "Overlays/Hands"; fallback = pos 3 })
setting_for feet = some (record { index = 3; section = codes "Overlays/Feet"; fallback = pos 3 })
setting_for (other n) = none

abbrev pub IniIntegerReader : Type 0 → Type 0
IniIntegerReader W = Text → Text → ℤ → W → ℤ × W

-- `m_counts`, an array of four.
pub record OverlayCounts : Type 0 where
  pub at0 : Option ℤ
  pub at1 : Option ℤ
  pub at2 : Option ℤ
  pub at3 : Option ℤ

abbrev pub new_counts : OverlayCounts
new_counts = record { at0 = none; at1 = none; at2 = none; at3 = none }

abbrev pub count_at : ℕ → OverlayCounts → Option ℤ
count_at zero c = c.at0
count_at (suc zero) c = c.at1
count_at (suc (suc zero)) c = c.at2
count_at (suc (suc (suc n))) c = c.at3

abbrev pub set_count_at : ℕ → ℤ → OverlayCounts → OverlayCounts
set_count_at zero v c = record c { at0 = some v }
set_count_at (suc zero) v c = record c { at1 = some v }
set_count_at (suc (suc zero)) v c = record c { at2 = some v }
set_count_at (suc (suc (suc n))) v c = record c { at3 = some v }

module _ {W : Type 0} (reader : IniIntegerReader W) where
  abbrev pub cached_count : AreaSetting → OverlayCounts × W → ℤ × (OverlayCounts × W)
  cached_count setting (c, w) = elim (count_at setting.index c) [
    | some cached ↦ (cached, (c, w))
    | none ↦
        let (n, w') = reader setting.section (codes "iNumOverlays") setting.fallback w in
        (n, (set_count_at setting.index n c, w'))
  ]

  unfoldable pub count : TattooArea → OverlayCounts × W → ℤ × (OverlayCounts × W)
  count area s = elim (setting_for area) [
    | none ↦ (pos 0, s)
    | some setting ↦ cached_count setting s
  ]

  -- Once an area has been counted, counting it again gives the same and reads nothing.
  pub count-count :
      (area : TattooArea) (s : OverlayCounts × W)
      → count area (count area s).1 ≡ ((count area s).0, (count area s).1)
  unfolding count
  count-count body (c, w) = ground arith
  count-count face (c, w) = ground arith
  count-count hands (c, w) = ground arith
  count-count feet (c, w) = ground arith
  count-count (other n) (c, w) = refl
