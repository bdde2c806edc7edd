-- ===== src/Thumbnails/Lookups.antt =====
-- The controller of a runtime, before and after the look-ups.
use slavetat_ui.Base.{
  ℕ, ◌+◌, ◌^◌, ◌<◌, ◌≤◌, ◌≡◌, ◌∙◌, refl, arith, Text, List, [], ◌∷◌, All, Option, none, some, map,
}
use slavetat_ui.Thumbnails.State.{NativeThumbnailController, queue_if_eligible}
use slavetat_ui.Thumbnails.Controller.{
  Lookup, collect_paths, begin_synchronize, abandon_synchronize, finish_synchronize,
  take_next_request, Loaded, place_view, place_views, failed, complete,
}
use slavetat_ui.Thumbnails.Controller
use slavetat_ui.Thumbnails.Places.{
  IsCanonicalPath, collect_paths-canonical, finish-IsSound, finish-generation,
}
use slavetat_ui.Thumbnails.History.{begins, abandons, step, step-IsSound}
use slavetat_ui.Thumbnails.Runtime.{NativeThumbnailRuntime, texture_of, found_all}
use slavetat_ui.Thumbnails.Flights.{IsRun}

pub weaken : {R : Type 0} (a b : ℕ) (s : NativeThumbnailRuntime R) → a ≤ b → IsRun a s → IsRun b s
weaken a b s l h = record {
  sound = h.sound;
  carried = h.carried;
  bounded = omega (arith, l, h.bounded);
}

module _ {R : Type 0} where
  place_view-in_flight :
      (path : Text) (cached : Option R) (c : NativeThumbnailController R)
      → (place_view path cached c).in_flight ≡ c.in_flight
  unfolding place_view queue_if_eligible
  place_view-in_flight path cached c = ground arith

  place_views-in_flight :
      (found : List (Text × Option R)) (c : NativeThumbnailController R)
      → (place_views found c).in_flight ≡ c.in_flight
  unfolding place_views
  place_views-in_flight [] c = refl
  place_views-in_flight ((path, cached) ∷ found) c =
      place_views-in_flight found _ ∙ place_view-in_flight path cached c

  finish-in_flight :
      (l : Lookup) (lookup : Text → Option R) (c : NativeThumbnailController R)
      → (finish_synchronize l lookup c).in_flight ≡ c.in_flight
  unfolding finish_synchronize
  finish-in_flight l lookup c = ground (
    arith,
    place_views-in_flight (map (λ path. (path, lookup path)) l.paths)
        (Controller.next_generation (Controller.enter_epoch l.epoch (Controller.drop_lookup c))),
  )

  begin_fields :
      (epoch : ℕ) (paths : List Text) (c : NativeThumbnailController R)
      → let c' = (begin_synchronize epoch paths c).1 in
        (c'.generation ≡ c.generation) × (c'.in_flight ≡ c.in_flight)
  unfolding begin_synchronize
  begin_fields epoch paths c = ground arith

  abandon_fields :
      (revision : ℕ) (c : NativeThumbnailController R)
      → let c' = abandon_synchronize revision c in
        (c'.generation ≡ c.generation) × (c'.in_flight ≡ c.in_flight)
  unfolding abandon_synchronize
  abandon_fields revision c = ground arith

  pub begun_paths :
      (epoch : ℕ) (paths : List Text) (c : NativeThumbnailController R) (l : Lookup)
      → (begin_synchronize epoch paths c).0 ≡ some l
      → All IsCanonicalPath l.paths
  unfolding begin_synchronize
  begun_paths epoch paths c l e =
      let same : l.paths ≡ collect_paths [] paths = ground (arith, e) in
      rw same (collect_paths-canonical [] paths tt)

  pub begin-IsRun :
      (epoch : ℕ) (paths : List Text) (bound : ℕ) (s : NativeThumbnailRuntime R)
      → bound + 1 < 2 ^ 64
      → IsRun bound s
      → IsRun bound (record s { controller = (begin_synchronize epoch paths s.controller).1 })
  unfolding step
  begin-IsRun epoch paths bound s b h =
      let (g, f) = begin_fields epoch paths s.controller in
      record {
        sound = step-IsSound (begins epoch paths) s.controller (omega (arith, h.bounded)) h.sound;
        carried = rw f h.carried;
        bounded = omega (arith, g, h.bounded);
      }

  pub found_all-IsRun :
      (l : Lookup) (found : Option (List (Text × Option R))) (bound : ℕ)
      (s : NativeThumbnailRuntime R)
      → bound + 1 < 2 ^ 64
      → All IsCanonicalPath l.paths
      → IsRun bound s
      → IsRun (bound + 1) (record s { controller = found_all l found s.controller })
  unfolding found_all step
  found_all-IsRun l none bound s b k h =
      let (g, f) = abandon_fields l.revision s.controller in
      record {
        sound = step-IsSound (abandons l.revision) s.controller (omega (arith, h.bounded)) h.sound;
        carried = rw f h.carried;
        bounded = omega (arith, g, h.bounded);
      }
  found_all-IsRun l (some textures) bound s b k h = record {
    sound =
        finish-IsSound l (texture_of textures) s.controller (omega (arith, h.bounded)) k h.sound;
    carried = rw (finish-in_flight l (texture_of textures) s.controller) h.carried;
    bounded = omega (arith, finish-generation l (texture_of textures) s.controller, h.bounded);
  }
