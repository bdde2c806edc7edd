-- ===== src/SlaveTats/Written.antt =====
-- What a tattoo's map holds after its appearance was written.
use mathlib.Core.Path.{subst}
use slavetat_ui.Base.{
  ◌≡◌, refl, ◌∙◌, ap, sym, ℤ, pos, ◌==ℤ◌, ==ℤ_iff, Bool-cases, inl, inr, Float, eq_f, nan, ◌||◌,
  not, is_some, Bool, true, false, Text, codes, arith, List, [], ◌∷◌, drop,
}
use slavetat_ui.Core.Models.{
  UpdateTattooAppearanceMode, UpdateTattooAppearanceRequest, UpdateTattooAppearanceSuccess, ok,
}
use slavetat_ui.Appearance.After.{success_holds}
use slavetat_ui.SlaveTats.JContainers.{
  JContainers, missing, map_get_int, map_get_flt, map_set_int, map_set_flt, map_set_int_and_verify,
  map_set_flt_and_verify, form_set_int_and_verify,
}
use slavetat_ui.SlaveTats.Maps.{IsMap, differ}
use slavetat_ui.SlaveTats.Calls.{Game, inverted_alpha}
use slavetat_ui.SlaveTats.Backend.{and_then, write_appearance, backend, update_appearance}
use slavetat_ui.SlaveTats.Keeps.{SynchronizingKeeps}

-- A value of a key. Numbers of type `float` are compared with `==`, as the code compares them.
data Value : Type 0 where
  int : Text → ℤ → Value
  flt : Text → Float → Value

abbrev key : Value → Text
key (int k v) = k
key (flt k v) = k

module _ {W : Type 0} where
  -- A write that leaves what it says if it is verified.
  unfoldable Establishes : (W → Type 0) → Bool × W → Type 0
  Establishes P p = p.0 ≡ true → P p.1

  and_then-Establishes :
      (P Q : W → Type 0) (f : W → Bool × W) (p : Bool × W)
      → Establishes P p
      → ((w : W) → P w → Establishes Q (f w))
      → Establishes Q (and_then f p)
  unfolding Establishes
  and_then-Establishes P Q f (true, w) h k e = k w (h refl) e
  and_then-Establishes P Q f (false, w) h k e = ground arith

module _ {A W : Type 0} (jc : JContainers A W) (o : ℤ) where
  abbrev Holds : Value → W → Type 0
  Holds (int k v) w = map_get_int jc o k missing w ≡ v
  Holds (flt k v) w = eq_f (map_get_flt jc o k nan w) v ≡ true

  abbrev HoldsAll : List Value → W → Type 0
  HoldsAll [] w = Unit
  HoldsAll (v ∷ vs) w = Holds v w × HoldsAll vs w

  abbrev DifferAll : Text → List Value → Type 0
  DifferAll k [] = Unit
  DifferAll k (v ∷ vs) = (differ k (key v) ≡ true) × DifferAll k vs

  module _ (object : IsMap jc o) where
    set_int-kept :
        (k : Text) (v : ℤ) (vs : List Value) (w : W)
        → DifferAll k vs
        → HoldsAll vs w
        → HoldsAll vs (map_set_int jc o k v w)
    set_int-kept k v [] w d h = tt
    set_int-kept k v (int key x ∷ vs) w (d, ds) (h, hs) =
        (object.int_int k key v _ w d ∙ h, set_int-kept k v vs w ds hs)
    set_int-kept k v (flt key x ∷ vs) w (d, ds) (h, hs) =
        (ap (λ y. eq_f y x) (object.flt_int k key v _ w d) ∙ h, set_int-kept k v vs w ds hs)

    set_flt-kept :
        (k : Text) (v : Float) (vs : List Value) (w : W)
        → DifferAll k vs
        → HoldsAll vs w
        → HoldsAll vs (map_set_flt jc o k v w)
    set_flt-kept k v [] w d h = tt
    set_flt-kept k v (int key x ∷ vs) w (d, ds) (h, hs) =
        (object.int_flt k key v _ w d ∙ h, set_flt-kept k v vs w ds hs)
    set_flt-kept k v (flt key x ∷ vs) w (d, ds) (h, hs) =
        (ap (λ y. eq_f y x) (object.flt_flt k key v _ w d) ∙ h, set_flt-kept k v vs w ds hs)

    set_int-Establishes :
        (k : Text) (v : ℤ) (vs : List Value) (w : W)
        → DifferAll k vs
        → HoldsAll vs w
        → Establishes (HoldsAll (int k v ∷ vs)) (map_set_int_and_verify jc o k v w)
    unfolding Establishes map_set_int_and_verify
    set_int-Establishes k v vs w d h =
        elim (Bool-cases
          (o ==ℤ pos 0 || (not (is_some jc.fn_jmap_set_int) || not (is_some jc.fn_jmap_get_int)))) [
            | inl e ↦ rw e (λ q. ground arith)
            | inr e ↦ rw e (λ q. ((==ℤ_iff _ _).0 q, set_int-kept k v vs w d h))
          ]

    set_flt-Establishes :
        (k : Text) (v : Float) (vs : List Value) (w : W)
        → DifferAll k vs
        → HoldsAll vs w
        → Establishes (HoldsAll (flt k v ∷ vs)) (map_set_flt_and_verify jc o k v w)
    unfolding Establishes map_set_flt_and_verify
    set_flt-Establishes k v vs w d h =
        elim (Bool-cases
          (o ==ℤ pos 0 || (not (is_some jc.fn_jmap_set_flt) || not (is_some jc.fn_jmap_get_flt)))) [
            | inl e ↦ rw e (λ q. ground arith)
            | inr e ↦ rw e (λ q. (q, set_flt-kept k v vs w d h))
          ]

-- The values of a tattoo that the code writes.
pub record TattooAppearance : Type 0 where
  pub color : ℤ
  pub inverted_alpha : Float
  pub glow : ℤ
  pub glossiness : Float
  pub specular_strength : Float
  pub emissive_mult : Float

module _ {A W : Type 0} (game : Game A W) where
  abbrev pub values : ℤ → W → TattooAppearance
  values o w = record {
    color = map_get_int game.jc o (codes "color") missing w;
    inverted_alpha = map_get_flt game.jc o (codes "invertedAlpha") nan w;
    glow = map_get_int game.jc o (codes "glow") missing w;
    glossiness = map_get_flt game.jc o (codes "glossiness") nan w;
    specular_strength = map_get_flt game.jc o (codes "specularStrength") nan w;
    emissive_mult = map_get_flt game.jc o (codes "emissiveMult") nan w;
  }

  -- They are those of a request.
  abbrev pub IsOf : UpdateTattooAppearanceRequest → TattooAppearance → Type 0
  IsOf r a =
      (a.color ≡ r.color)
      × (eq_f a.inverted_alpha (inverted_alpha game r.alpha) ≡ true)
      × (a.glow ≡ r.glow)
      × (eq_f a.glossiness r.glossiness ≡ true)
      × (eq_f a.specular_strength r.specular_strength ≡ true)
      × (eq_f a.emissive_mult r.emissive_mult ≡ true)

  abbrev written : UpdateTattooAppearanceRequest → List Value
  written r =
      flt (codes "emissiveMult") r.emissive_mult
      ∷ flt (codes "specularStrength") r.specular_strength
      ∷ flt (codes "glossiness") r.glossiness
      ∷ int (codes "glow") r.glow
      ∷ flt (codes "invertedAlpha") (inverted_alpha game r.alpha)
      ∷ int (codes "color") r.color
      ∷ []

  written-IsOf :
      (o : ℤ) (r : UpdateTattooAppearanceRequest) (w : W)
      → HoldsAll game.jc o (written r) w
      → IsOf r (values o w)
  written-IsOf o r w (m, (s, (g, (l, (i, (c, t)))))) = (c, i, l, g, s, m)

  write_appearance-Establishes :
      (o : ℤ) (r : UpdateTattooAppearanceRequest) (w : W)
      → IsMap game.jc o
      → Establishes (HoldsAll game.jc o (written r)) (write_appearance game o r w)
  unfolding write_appearance
  write_appearance-Establishes o r w object =
      and_then-Establishes _ (HoldsAll game.jc o (written r)) _ _
        (and_then-Establishes _ (HoldsAll game.jc o (drop 1 (written r))) _ _
          (and_then-Establishes _ (HoldsAll game.jc o (drop 2 (written r))) _ _
            (and_then-Establishes _ (HoldsAll game.jc o (drop 3 (written r))) _ _
              (and_then-Establishes _ (HoldsAll game.jc o (drop 4 (written r))) _ _
                (set_int-Establishes game.jc o object _ _ [] w tt tt)
                λ v h. set_flt-Establishes game.jc o object _ _ (drop 5 (written r)) v (refl, tt) h)
              λ v h.
                set_int-Establishes game.jc o object _ _ (drop 4 (written r)) v (refl, (refl, tt))
                  h)
            λ v h.
              set_flt-Establishes game.jc o object _ _ (drop 3 (written r)) v
                (refl, (refl, (refl, tt))) h)
          λ v h.
            set_flt-Establishes game.jc o object _ _ (drop 2 (written r)) v
              (refl, (refl, (refl, (refl, tt)))) h)
        λ v h.
          set_flt-Establishes game.jc o object _ _ (drop 1 (written r)) v
            (refl, (refl, (refl, (refl, (refl, tt))))) h

  write_appearance-IsOf :
      (o : ℤ) (r : UpdateTattooAppearanceRequest) (w : W)
      → IsMap game.jc o
      → (write_appearance game o r w).0 ≡ true
      → IsOf r (values o (write_appearance game o r w).1)
  unfolding Establishes
  write_appearance-IsOf o r w object e =
      written-IsOf o r _ (write_appearance-Establishes o r w object e)

  after_form_set :
      (o : ℤ) (r : UpdateTattooAppearanceRequest) (actor : A) (path : Text) (v : ℤ) (w : W)
      → SynchronizingKeeps game (values o)
      → IsOf r (values o w)
      → IsOf r (values o (form_set_int_and_verify game.jc actor path v w).1)
  unfolding form_set_int_and_verify
  after_form_set o r actor path v w ending h =
      elim (Bool-cases
        (not (is_some game.jc.fn_jfdb_set_int) || not (is_some game.jc.fn_jfdb_get_int))) [
          | inl e ↦ rw e h
          | inr e ↦ rw e (subst (IsOf r) (sym (ending.marked actor path v w)) h)
        ]

  -- When an update that does not only synchronize has succeeded, the tattoo's map has the request's
  -- values: the colour and the glow are equal, and the inverted alpha, the glossiness, the specular
  -- strength and the emissive multiplier compare as equal; provided that the handle is of a map
  -- whose keys are independent, and that marking the actor and synchronizing its overlays leave
  -- these values of it.
  pub update_appearance-IsOf :
      (r : UpdateTattooAppearanceRequest) (w w' : W) (x : UpdateTattooAppearanceSuccess)
      → IsMap game.jc r.runtime_handle
      → SynchronizingKeeps game (values r.runtime_handle)
      → r.mode ≡ UpdateTattooAppearanceMode.update_and_synchronize
      → update_appearance game r w ≡ (ok x, w')
      → IsOf r (values r.runtime_handle w')
  unfolding update_appearance backend
  update_appearance-IsOf r w w' x object ending m e =
      success_holds (backend game) r (λ v. IsOf r (values r.runtime_handle v))
        (λ v h. write_appearance-IsOf r.runtime_handle r v object h)
        (λ actor v h. after_form_set r.runtime_handle r actor _ _ v ending h)
        (λ actor v h. subst (IsOf r) (sym (ending.synchronized actor v)) h) w w' x e m
