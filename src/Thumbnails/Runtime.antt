-- ===== src/Thumbnails/Runtime.antt =====
-- src/native/NativeThumbnailRuntime.{h,cpp}. The textures' source acts on a world `W`; its look-up may throw,
-- and so may its load. Time points are ticks of the steady clock, in nanoseconds.
use slavetat_ui.Base.{
  ℕ, ◌-◌, ◌^◌, leb, Bool, true, false, if◌then◌else◌, Text, eq_text, is_some, List, [], ◌∷◌, ◌++◌,
  map, length, Option, none, some, zero, suc,
}
use slavetat_ui.Repository.Models.{TattooDefinition}
use slavetat_ui.Thumbnails.State.{
  is_broken, NativeThumbnailRequest, NativeThumbnailController, new_controller,
}
use slavetat_ui.Thumbnails.Controller.{
  Lookup, begin_synchronize, abandon_synchronize, finish_synchronize, take_next_request, is_current,
  Loaded, failed, complete,
}
use slavetat_ui.Thumbnails.Controller

-- `find` gives `none` if it throws, and else the texture, if there is one; `load` gives `none` if it throws.
pub record NativeThumbnailTextureSource (R W : Type 0) : Type 0 where
  pub find : Text → ℕ → W → Option (Option R) × W
  pub load : Text → Bool → ℕ → W → Option (Loaded R) × W
  pub prune_expired : ℕ → W → W
  pub clear : W → W
  pub available : W → Bool

-- A task: the request it has captured, and whether its completion was claimed.
pub record Flight : Type 0 where
  pub request : NativeThumbnailRequest
  pub completion_claimed : Bool

-- The tasks are in the order in which they were made.
pub record NativeThumbnailRuntime (R : Type 0) : Type 0 where
  pub controller : NativeThumbnailController R
  pub last_prune : Option ℕ
  pub flights : List Flight

abbrev pub new_runtime : {R : Type 0} → NativeThumbnailRuntime R
new_runtime = record { controller = new_controller; last_prune = none; flights = [] }

unfoldable pub flight_at : ℕ → List Flight → Option Flight
flight_at i [] = none
flight_at zero (f ∷ fs) = some f
flight_at (suc i) (f ∷ fs) = flight_at i fs

unfoldable pub claim_at : ℕ → List Flight → List Flight
claim_at i [] = []
claim_at zero (f ∷ fs) = record f { completion_claimed = true } ∷ fs
claim_at (suc i) (f ∷ fs) = f ∷ claim_at i fs

-- What the scheduler does with a task: it runs it at once, at a time, or keeps it; then it returns or throws.
pub record Scheduling : Type 0 where
  pub runs : Option ℕ
  pub throws : Bool

abbrev pub loaded_or_broken : {R : Type 0} → Option (Loaded R) → Loaded R
loaded_or_broken none = failed is_broken
loaded_or_broken (some result) = result

module _ {R : Type 0} where
  -- `complete` in `pump`: the first completion of a task counts.
  unfoldable pub complete_once : ℕ → Loaded R → NativeThumbnailRuntime R → NativeThumbnailRuntime R
  unfolding flight_at claim_at complete
  complete_once i result s = elim (flight_at i s.flights) [
    | none ↦ s
    | some f ↦ if f.completion_claimed then s else record s {
      controller = complete f.request result s.controller;
      flights = claim_at i s.flights;
    }
  ]

-- The test for the time of the last pruning: a second has passed.
abbrev pub is_due : ℕ → Option ℕ → Bool
is_due now none = true
is_due now (some last) = leb (10 ^ 9) (now - last)

-- The texture that was found for a path.
unfoldable pub texture_of : {R : Type 0} → List (Text × Option R) → Text → Option R
texture_of [] path = none
texture_of ((p, texture) ∷ rest) path = if eq_text p path then texture else texture_of rest path

-- The runtime, and the world of its source.
abbrev pub Call : Type 0 → Type 0 → Type 0
Call R W = NativeThumbnailRuntime R × W

-- The rest of `synchronize`, once the look-ups have ended.
unfoldable pub found_all :
    {R : Type 0}
    → Lookup
    → Option (List (Text × Option R))
    → NativeThumbnailController R
    → NativeThumbnailController R
unfolding abandon_synchronize finish_synchronize texture_of
found_all l none c = abandon_synchronize l.revision c
found_all l (some textures) c = finish_synchronize l (texture_of textures) c

module _ {R W : Type 0} (source : NativeThumbnailTextureSource R W) where
  -- The look-ups of `synchronize`, path by path, until one throws.
  unfoldable pub find_all : ℕ → Bool → List Text → W → Option (List (Text × Option R)) × W
  find_all now available [] w = (some [], w)
  find_all now available (path ∷ paths) w =
      let (found, w1) = if available then source.find path now w else (some none, w) in
      let (rest, w2) = find_all now available paths w1 in
      elim found [
        | none ↦ (none, w1)
        | some texture ↦
            (elim rest [ none ↦ none | some textures ↦ some ((path, texture) ∷ textures) ], w2)
      ]

  -- The Boolean is whether it returns: else a look-up has thrown.
  unfoldable pub synchronize : ℕ → ℕ → List Text → Call R W → Bool × Call R W
  unfolding begin_synchronize find_all found_all
  synchronize now epoch paths (s, w) =
      let (begun, c) = begin_synchronize epoch paths s.controller in
      elim begun [
        | none ↦ (true, (record s { controller = c }, w))
        | some l ↦
            let (found, w') = find_all now (source.available w) l.paths w in
            (is_some found, (record s { controller = found_all l found c }, w'))
      ]

  -- The other overload, which takes the paths of a page of the catalog.
  unfoldable pub synchronize_page : ℕ → ℕ → List TattooDefinition → Call R W → Bool × Call R W
  unfolding synchronize
  synchronize_page now snapshot entries s =
      synchronize now snapshot (map (λ e. e.texture_path) entries) s

  -- The task, when it is run.
  unfoldable pub run_task : ℕ → ℕ → Call R W → Call R W
  unfolding flight_at is_current complete_once
  run_task i now (s, w) = elim (flight_at i s.flights) [
    | none ↦ (s, w)
    | some f ↦
        if f.completion_claimed
        then (s, w)
        else let (result, w') =
            source.load f.request.texture_path (is_current f.request s.controller) now w in
          (complete_once i (loaded_or_broken result) s, w')
  ]

  unfoldable pub prune : ℕ → Call R W → Call R W
  prune now (s, w) =
      if is_due now s.last_prune
      then (record s { last_prune = some now }, source.prune_expired now w)
      else (s, w)

  abbrev pub run_at : Option ℕ → ℕ → Call R W → Call R W
  run_at none i s = s
  run_at (some at) i s = run_task i at s

  -- The call of the scheduler: if it throws, the request is broken.
  unfoldable pub hand_over : Scheduling → ℕ → Call R W → Call R W
  unfolding complete_once
  hand_over scheduling i s =
      let (s1, w1) = run_at scheduling.runs i s in
      if scheduling.throws then (complete_once i (failed is_broken) s1, w1) else (s1, w1)

  -- `pump` after a request was taken.
  unfoldable pub schedule : Scheduling → NativeThumbnailRequest → Call R W → Call R W
  unfolding hand_over
  schedule scheduling request (s, w) =
      let flight : Flight = record { request = request; completion_claimed = false } in
      hand_over scheduling (length s.flights) (record s { flights = s.flights ++ (flight ∷ []) }, w)

  unfoldable pub pump_available : Scheduling → Call R W → Call R W
  unfolding take_next_request schedule
  pump_available scheduling (s, w) =
      let (taken, c) = take_next_request s.controller in
      elim taken [
        | none ↦ (record s { controller = c }, w)
        | some request ↦ schedule scheduling request (record s { controller = c }, w)
      ]

  unfoldable pub pump : ℕ → Scheduling → Call R W → Call R W
  unfolding prune pump_available
  pump now scheduling s =
      let pruned = prune now s in
      if source.available pruned.1 then pump_available scheduling pruned else pruned

  unfoldable pub reset : Call R W → Call R W
  unfolding Controller.clear
  reset (s, w) =
      (record s { controller = Controller.clear s.controller; last_prune = none }, source.clear w)
