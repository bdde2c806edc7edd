-- ===== src/SlaveTats/Restores.antt =====
-- Templates after a tattoo is applied.
use slavetat_ui.Base.{
  ◌≡◌, refl, ◌∙◌, ◌≢◌, ℤ, pos, ◌==ℤ◌, ==ℤ_iff, Bool-cases, inl, inr, Float, zero_f, Text, codes,
  arith, String,
}
use slavetat_ui.Core.Models.{ApplyTattooRequest}
use slavetat_ui.SlaveTats.JContainers.{map_get_int, map_get_flt, map_set_int, map_set_flt}
use slavetat_ui.SlaveTats.Maps.{IsMap, IsApart}
use slavetat_ui.SlaveTats.Calls.{Game, call, with_appearance}
use slavetat_ui.SlaveTats.Operations.{apply_template, apply_available, apply_to_slot, synchronize}
use slavetat_ui.SlaveTats.Keeps.{
  Keeps, QueriesKeep, SynchronizingKeeps, bind-Keeps, change-Keeps, read-Keeps, pure-Keeps,
  stop_if-Keeps, fail_if-Keeps, new_array-Keeps, guard_pool-Keeps, find_actor-Keeps,
  check_external-Keeps,
}

-- The colour and the transparency of an object.
abbrev pub appearance : {A W : Type 0} → Game A W → ℤ → W → ℤ × Float
appearance game o w = (
  map_get_int game.jc o (codes "color") (pos 0) w,
  map_get_flt game.jc o (codes "invertedAlpha") zero_f w,
)

pair-≡ : {X Y : Type 0} {x x' : X} {y y' : Y} → x ≡ x' → y ≡ y' → Path (X × Y) (x, y) (x', y')
pair-≡ p q = cc

module _ {A W : Type 0} (game : Game A W) (o : ℤ) (object : IsMap game.jc o)
    (apart : IsApart game.jc o) (queries : QueriesKeep game (appearance game o))
    (ending : SynchronizingKeeps game (appearance game o))
    (placed : (actor : A) (tattoo slot : ℤ) (w : W)
      → appearance game o (game.api.add_and_get_tattoo actor tattoo slot w).1
        ≡ appearance game o w) where
  int-Keeps :
      (p : ℤ) (k : Text) (v : ℤ) (w : W)
      → p ≢ o
      → appearance game o (map_set_int game.jc p k v w) ≡ appearance game o w
  int-Keeps p k v w n = pair-≡ (apart.int_other p k _ v _ w n) (apart.flt_other_int p k _ v _ w n)

  flt-Keeps :
      (p : ℤ) (k : Text) (v : Float) (w : W)
      → p ≢ o
      → appearance game o (map_set_flt game.jc p k v w) ≡ appearance game o w
  flt-Keeps p k v w n = pair-≡ (apart.int_other_flt p k _ v _ w n) (apart.flt_other p k _ v _ w n)

  same-Keeps :
      {X : Type 0} (color : ℤ) (alpha : Float) (f : W → X × W) (w : W)
      → appearance game o (with_appearance game o color alpha f w).1 ≡ appearance game o w
  unfolding with_appearance
  same-Keeps color alpha f w =
      pair-≡
        (object.int_flt (codes "invertedAlpha") (codes "color") _ _ _ refl ∙ object.int_set _ _ _ _)
        (object.flt_set _ _ _ _)

  other-Keeps :
      {X : Type 0} (p color : ℤ) (alpha : Float) (f : W → X × W) (w : W)
      → p ≢ o
      → ((v : W) → appearance game o (f v).1 ≡ appearance game o v)
      → appearance game o (with_appearance game p color alpha f w).1 ≡ appearance game o w
  unfolding with_appearance
  other-Keeps p color alpha f w n h =
      flt-Keeps p _ _ _ n ∙ int-Keeps p _ _ _ n ∙ h _ ∙ flt-Keeps p _ _ _ n ∙ int-Keeps p _ _ _ n

  with_appearance-Keeps :
      {X : Type 0} (p color : ℤ) (alpha : Float) (f : W → X × W)
      → ((v : W) → appearance game o (f v).1 ≡ appearance game o v)
      → Keeps (appearance game o) (call (with_appearance game p color alpha f))
  unfolding Keeps
  with_appearance-Keeps p color alpha f h w = elim (Bool-cases (p ==ℤ o)) [
    | inl e ↦ rw ((==ℤ_iff p o).0 e) (same-Keeps color alpha f w)
    | inr e ↦ other-Keeps p color alpha f w (ground (arith, ==ℤ_iff p o)) h
  ]

  synchronize-Keeps :
      (message : String) (actor : A) → Keeps (appearance game o) (synchronize game message actor)
  unfolding synchronize
  synchronize-Keeps message actor =
      bind-Keeps _ _ _ (change-Keeps _ _ (ending.marked actor _ _))
        λ u. fail_if-Keeps _ _ _ _ (ending.synchronized actor)

  apply_template-Keeps :
      (r : ApplyTattooRequest) (actor : A) (tattoo : ℤ)
      → Keeps (appearance game o) (apply_template game r actor tattoo)
  unfolding apply_template
  apply_template-Keeps r actor tattoo =
      bind-Keeps _ _ _
        (with_appearance-Keeps tattoo r.color r.alpha
          (game.api.add_and_get_tattoo actor tattoo r.slot) (placed actor tattoo r.slot))
        λ a.
          bind-Keeps _ _ _ (stop_if-Keeps _ _ _ _)
            λ u. bind-Keeps _ _ _ (synchronize-Keeps _ actor) λ v. pure-Keeps _ _

  apply_available-Keeps :
      (r : ApplyTattooRequest) (actor : A) (available : ℤ)
      → Keeps (appearance game o) (apply_available game r actor available)
  unfolding apply_available
  apply_available-Keeps r actor available =
      bind-Keeps _ _ _ (fail_if-Keeps _ _ _ _ (queries.available available r.domain)) λ u.
        bind-Keeps _ _ _ (read-Keeps _ _) λ tattoo.
          bind-Keeps _ _ _ (stop_if-Keeps _ _ _ _) λ v. apply_template-Keeps r actor tattoo

  apply_to_slot-Keeps : (r : ApplyTattooRequest) → Keeps (appearance game o) (apply_to_slot game r)
  unfolding apply_to_slot
  apply_to_slot-Keeps r =
      bind-Keeps _ _ _ (find_actor-Keeps game _ queries r.actor_form_id r.area) λ found.
        bind-Keeps _ _ _ (check_external-Keeps game _ queries _ _ _ _) λ u.
          bind-Keeps _ _ _ (new_array-Keeps game _ queries _) λ available.
            guard_pool-Keeps game _ queries _ _ (apply_available-Keeps r found.0 available)

  -- Applying a tattoo leaves the colour and the inverted alpha of every map as they were, the
  -- template's that it changes for the call too, and after an error as well as after a success;
  -- provided that a value set in a map is read there and changes no other key and no other map, and
  -- that the other calls of the plugins leave the two values.
  pub apply_to_slot-appearance :
      (r : ApplyTattooRequest) (w : W)
      → appearance game o (apply_to_slot game r w).1 ≡ appearance game o w
  unfolding Keeps
  apply_to_slot-appearance r w = apply_to_slot-Keeps r w
