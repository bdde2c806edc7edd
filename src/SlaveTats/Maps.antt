-- ===== src/SlaveTats/Maps.antt =====
-- What JContainers documents of a map object: a value that is set is read, and the values of other keys stay.
-- Whether keys are compared by letter case is not used: two keys differ here when they do in lower case.
use slavetat_ui.Base.{
  ◌+◌, leb, ◌≡◌, ◌≢◌, ℤ, Float, Bool, true, not, ◌&&◌, Text, eq_text, map, if◌then◌else◌,
}
use slavetat_ui.SlaveTats.JContainers.{
  JContainers, map_get_int, map_get_flt, map_set_int, map_set_flt,
}

abbrev pub fold_case : Text → Text
fold_case key = map (λ c. if leb 65 c && leb c 90 then c + 32 else c) key

abbrev pub differ : Text → Text → Bool
differ k key = not (eq_text (fold_case k) (fold_case key))

-- The object is a map.
pub record IsMap {A W : Type 0} (jc : JContainers A W) (o : ℤ) : Type 0 where
  pub int_set : (k : Text) (v def : ℤ) (w : W) → map_get_int jc o k def (map_set_int jc o k v w) ≡ v
  pub flt_set :
      (k : Text) (v def : Float) (w : W) → map_get_flt jc o k def (map_set_flt jc o k v w) ≡ v
  pub int_int :
      (k key : Text) (v def : ℤ) (w : W)
      → differ k key ≡ true
      → map_get_int jc o key def (map_set_int jc o k v w) ≡ map_get_int jc o key def w
  pub int_flt :
      (k key : Text) (v : Float) (def : ℤ) (w : W)
      → differ k key ≡ true
      → map_get_int jc o key def (map_set_flt jc o k v w) ≡ map_get_int jc o key def w
  pub flt_int :
      (k key : Text) (v : ℤ) (def : Float) (w : W)
      → differ k key ≡ true
      → map_get_flt jc o key def (map_set_int jc o k v w) ≡ map_get_flt jc o key def w
  pub flt_flt :
      (k key : Text) (v def : Float) (w : W)
      → differ k key ≡ true
      → map_get_flt jc o key def (map_set_flt jc o k v w) ≡ map_get_flt jc o key def w

-- What is set in other objects leaves its colour and its transparency.
pub record IsApart {A W : Type 0} (jc : JContainers A W) (o : ℤ) : Type 0 where
  pub int_other :
      (p : ℤ) (k key : Text) (v def : ℤ) (w : W)
      → p ≢ o
      → map_get_int jc o key def (map_set_int jc p k v w) ≡ map_get_int jc o key def w
  pub int_other_flt :
      (p : ℤ) (k key : Text) (v : Float) (def : ℤ) (w : W)
      → p ≢ o
      → map_get_int jc o key def (map_set_flt jc p k v w) ≡ map_get_int jc o key def w
  pub flt_other_int :
      (p : ℤ) (k key : Text) (v : ℤ) (def : Float) (w : W)
      → p ≢ o
      → map_get_flt jc o key def (map_set_int jc p k v w) ≡ map_get_flt jc o key def w
  pub flt_other :
      (p : ℤ) (k key : Text) (v def : Float) (w : W)
      → p ≢ o
      → map_get_flt jc o key def (map_set_flt jc p k v w) ≡ map_get_flt jc o key def w
