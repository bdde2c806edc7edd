-- ===== src/SlaveTats/JContainers.antt =====
-- include/jcontainers_mini.h. A function of JContainers is `none` where its pointer is null. `A` is a form
-- that is there, `W` the game; reading it changes nothing.
use slavetat_ui.Base.{
  ◌-◌, ◌^◌, ℤ, pos, negsuc, ◌==ℤ◌, Float, nan, eq_f, Bool, false, not, ◌||◌, if◌then◌else◌, Text,
  Option, none, some, is_some,
}

-- The pointers that `Init` binds.
pub record JContainers (A W : Type 0) : Type 0 where
  pub fn_jarr_object : Option (W → ℤ × W)
  pub fn_jarr_count : Option (ℤ → W → ℤ)
  pub fn_jarr_get_obj : Option (ℤ → ℤ → ℤ → W → ℤ)
  pub fn_jarr_get_int : Option (ℤ → ℤ → ℤ → W → ℤ)
  pub fn_jmap_get_str : Option (ℤ → Text → Text → W → Text)
  pub fn_jmap_get_int : Option (ℤ → Text → ℤ → W → ℤ)
  pub fn_jmap_get_flt : Option (ℤ → Text → Float → W → Float)
  pub fn_jmap_set_int : Option (ℤ → Text → ℤ → W → W)
  pub fn_jmap_set_flt : Option (ℤ → Text → Float → W → W)
  pub fn_jfdb_get_int : Option (A → Text → ℤ → W → ℤ)
  pub fn_jfdb_set_int : Option (A → Text → ℤ → W → W)
  pub fn_jval_add_to_pool : Option (ℤ → Text → W → ℤ × W)
  pub fn_jval_clean_pool : Option (Text → W → W)

-- The smallest `int`, which stands for a value that is missing.
abbrev pub missing : ℤ
missing = negsuc (2 ^ 31 - 1)

module _ {A W : Type 0} (jc : JContainers A W) where
  unfoldable pub array_object : W → ℤ × W
  array_object w = elim jc.fn_jarr_object [ none ↦ (pos 0, w) | some f ↦ f w ]

  unfoldable pub array_count : ℤ → W → ℤ
  array_count array w = elim jc.fn_jarr_count [ none ↦ pos 0 | some f ↦ f array w ]

  unfoldable pub array_get_obj : ℤ → ℤ → W → ℤ
  array_get_obj array index w = elim jc.fn_jarr_get_obj [
    | none ↦ pos 0
    | some f ↦ f array index (pos 0) w
  ]

  unfoldable pub array_get_int : ℤ → ℤ → W → ℤ
  array_get_int array index w = elim jc.fn_jarr_get_int [
    | none ↦ pos 0
    | some f ↦ f array index (pos 0) w
  ]

  unfoldable pub map_get_str : ℤ → Text → Text → W → Text
  map_get_str object key def w = elim jc.fn_jmap_get_str [
    | none ↦ def
    | some f ↦ f object key def w
  ]

  unfoldable pub map_get_int : ℤ → Text → ℤ → W → ℤ
  map_get_int object key def w = elim jc.fn_jmap_get_int [
    | none ↦ def
    | some f ↦ f object key def w
  ]

  unfoldable pub map_get_flt : ℤ → Text → Float → W → Float
  map_get_flt object key def w = elim jc.fn_jmap_get_flt [
    | none ↦ def
    | some f ↦ f object key def w
  ]

  unfoldable pub map_set_int : ℤ → Text → ℤ → W → W
  map_set_int object key v w = elim jc.fn_jmap_set_int [ none ↦ w | some f ↦ f object key v w ]

  unfoldable pub map_set_flt : ℤ → Text → Float → W → W
  map_set_flt object key v w = elim jc.fn_jmap_set_flt [ none ↦ w | some f ↦ f object key v w ]

  unfoldable pub map_set_int_and_verify : ℤ → Text → ℤ → W → Bool × W
  unfolding map_set_int map_get_int
  map_set_int_and_verify object key v w =
      let w' = map_set_int object key v w in
      if object ==ℤ pos 0 || (not (is_some jc.fn_jmap_set_int) || not (is_some jc.fn_jmap_get_int))
      then (false, w)
      else (map_get_int object key missing w' ==ℤ v, w')

  unfoldable pub map_set_flt_and_verify : ℤ → Text → Float → W → Bool × W
  unfolding map_set_flt map_get_flt
  map_set_flt_and_verify object key v w =
      let w' = map_set_flt object key v w in
      if object ==ℤ pos 0 || (not (is_some jc.fn_jmap_set_flt) || not (is_some jc.fn_jmap_get_flt))
      then (false, w)
      else (eq_f (map_get_flt object key nan w') v, w')

  unfoldable pub form_set_int : A → Text → ℤ → W → W
  form_set_int form path v w = elim jc.fn_jfdb_set_int [ none ↦ w | some f ↦ f form path v w ]

  unfoldable pub form_get_int : A → Text → ℤ → W → ℤ
  form_get_int form path def w = elim jc.fn_jfdb_get_int [ none ↦ def | some f ↦ f form path def w ]

  unfoldable pub form_set_int_and_verify : A → Text → ℤ → W → Bool × W
  unfolding form_set_int form_get_int
  form_set_int_and_verify form path v w =
      let w' = form_set_int form path v w in
      if not (is_some jc.fn_jfdb_set_int) || not (is_some jc.fn_jfdb_get_int)
      then (false, w)
      else (form_get_int form path missing w' ==ℤ v, w')

  unfoldable pub add_to_pool : ℤ → Text → W → ℤ × W
  add_to_pool object pool w = elim jc.fn_jval_add_to_pool [
    | none ↦ (object, w)
    | some f ↦ f object pool w
  ]

  unfoldable pub clean_pool : Text → W → W
  clean_pool pool w = elim jc.fn_jval_clean_pool [ none ↦ w | some f ↦ f pool w ]
