-- ===== src/Thumbnails/History.antt =====
-- Histories of the thumbnail controller, with the lookups of `synchronize` and the loads ending whenever
-- they like.
use slavetat_ui.Base.{ℕ, ap, ◌≡◌, ◌+◌, ◌^◌, ◌≤◌, ◌<◌, arith, Text, List, [], ◌∷◌, length, Option}
use slavetat_ui.Thumbnails.State.{
  NativeThumbnailRequest, NativeThumbnailController, new_controller, status_at, failure_at,
}
use slavetat_ui.Thumbnails.Controller.{
  Lookup, collect_paths, begin_synchronize, abandon_synchronize, finish_synchronize,
  take_next_request, Loaded, complete, retry_device_unavailable, clear,
}
use slavetat_ui.Thumbnails.Page.{
  IsPage, view_paths, collect_paths-IsPage, finish-IsPage, take-view_paths, retry-view_paths,
  complete-view_paths,
}
use slavetat_ui.Thumbnails.Served.{
  IsServed, IsSound, take-IsSound, complete-IsSound, complete-generation,
}
use slavetat_ui.Thumbnails.Retry.{retry-generation, retry-IsSound}
use slavetat_ui.Thumbnails.Places.{
  collect_paths-canonical, finish-IsSound, finish-generation, clear-IsSound,
}

pub data Event (R : Type 0) : Type 0 where
  begins : ℕ → List Text → Event R
  abandons : ℕ → Event R
  -- A lookup of these paths ends, under the revision that it was given.
  finishes : ℕ → ℕ → List Text → (Text → Option R) → Event R
  takes retries clears : Event R
  completes : NativeThumbnailRequest → Loaded R → Event R

abbrev pub lookup_of : ℕ → ℕ → List Text → Lookup
unfolding collect_paths
lookup_of revision epoch visible = record {
  revision = revision;
  epoch = epoch;
  paths = collect_paths [] visible;
}

module _ {R : Type 0} where
  unfoldable pub step : Event R → NativeThumbnailController R → NativeThumbnailController R
  unfolding begin_synchronize abandon_synchronize finish_synchronize take_next_request complete
      retry_device_unavailable clear collect_paths
  step (begins epoch visible) c = (begin_synchronize epoch visible c).1
  step (abandons revision) c = abandon_synchronize revision c
  step (finishes revision epoch visible lookup) c =
      finish_synchronize (lookup_of revision epoch visible) lookup c
  step takes c = (take_next_request c).1
  step retries c = retry_device_unavailable c
  step clears c = clear c
  step (completes request result) c = complete request result c

  unfoldable pub run : List (Event R) → NativeThumbnailController R → NativeThumbnailController R
  unfolding step
  run [] c = c
  run (e ∷ es) c = run es (step e c)

  -- Only the memory of a lookup differs.
  abbrev with_lookup :
      NativeThumbnailController R → NativeThumbnailController R → NativeThumbnailController R
  with_lookup c d = record c {
    synchronization_revision = d.synchronization_revision;
    lookup_pending = d.lookup_pending;
    pending_epoch = d.pending_epoch;
    pending_paths = d.pending_paths;
  }

  with_lookup-IsSound : (c d : NativeThumbnailController R) → IsSound c → IsSound (with_lookup c d)
  with_lookup-IsSound c d h = record {
    paths = λ path.
        let p = h.paths path in
        record { agrees = p.agrees; canonical = p.canonical; remembered = p.remembered };
    distinct = h.distinct;
    past = h.past;
  }

  begin_fields :
      (epoch : ℕ) (visible : List Text) (c : NativeThumbnailController R)
      → (begin_synchronize epoch visible c).1 ≡ with_lookup c (begin_synchronize epoch visible c).1
  unfolding begin_synchronize
  begin_fields epoch visible c = ground arith

  abandon_fields :
      (revision : ℕ) (c : NativeThumbnailController R)
      → abandon_synchronize revision c ≡ with_lookup c (abandon_synchronize revision c)
  unfolding abandon_synchronize
  abandon_fields revision c = ground arith

  pub step-IsSound :
      (e : Event R) (c : NativeThumbnailController R)
      → c.generation + 1 < 2 ^ 64
      → IsSound c
      → IsSound (step e c)
  unfolding step
  step-IsSound (begins epoch visible) c b h =
      rw (begin_fields epoch visible c)
        (with_lookup-IsSound c ((begin_synchronize epoch visible c).1) h)
  step-IsSound (abandons revision) c b h =
      rw (abandon_fields revision c) (with_lookup-IsSound c (abandon_synchronize revision c) h)
  step-IsSound (finishes revision epoch visible lookup) c b h =
      finish-IsSound (lookup_of revision epoch visible) lookup c b
        (collect_paths-canonical [] visible tt) h
  step-IsSound takes c b h = take-IsSound c h
  step-IsSound retries c b h = retry-IsSound c h
  step-IsSound clears c b h = clear-IsSound c b h
  step-IsSound (completes request result) c b h = complete-IsSound request result c h

  pub generation-step :
      (e : Event R) (c : NativeThumbnailController R) → (step e c).generation ≤ c.generation + 1
  unfolding step
  generation-step (begins epoch visible) c =
      omega (arith, ap (λ d. d.generation) (begin_fields epoch visible c))
  generation-step (abandons revision) c =
      omega (arith, ap (λ d. d.generation) (abandon_fields revision c))
  generation-step (finishes revision epoch visible lookup) c =
      finish-generation (lookup_of revision epoch visible) lookup c
  generation-step takes c = ground arith
  generation-step retries c = omega (arith, retry-generation c)
  generation-step clears c = omega arith
  generation-step (completes request result) c = omega (arith, complete-generation request result c)

  run-IsSound :
      (es : List (Event R)) (c : NativeThumbnailController R)
      → c.generation + length es < 2 ^ 64
      → IsSound c
      → IsSound (run es c)
  unfolding run
  run-IsSound [] c b h = h
  run-IsSound (e ∷ es) c b h =
      run-IsSound es (step e c) (omega (arith, generation-step e c))
        (step-IsSound e c (omega arith) h)

  pub new_controller-IsSound : IsSound (new_controller {R = R})
  unfolding status_at failure_at
  new_controller-IsSound = record {
    paths = λ path. record { agrees = ground arith; canonical = tt; remembered = tt };
    distinct = tt;
    past = tt;
  }

  -- However page changes, cache look-ups, loads, retries and resets follow one another (fewer than
  -- 2^64 of them), a path on the page that shows a placeholder has no failure remembered, and is
  -- queued, in flight, or waits for the device; one that loads is the request in flight under the
  -- current generation; one that is missing or broken has that failure remembered; a path that is
  -- ready or failed is not queued, nothing off the page is queued, and no other failure is
  -- remembered.
  pub run-new-IsServed :
      (es : List (Event R)) (path : Text)
      → length es < 2 ^ 64
      → IsServed (run es new_controller) path
  run-new-IsServed es path b =
      (run-IsSound es new_controller (omega arith) new_controller-IsSound).paths path

  step-IsPage :
      (e : Event R) (c : NativeThumbnailController R)
      → IsPage (view_paths c)
      → IsPage (view_paths (step e c))
  unfolding step
  step-IsPage (begins epoch visible) c h = rw (begin_fields epoch visible c) h
  step-IsPage (abandons revision) c h = rw (abandon_fields revision c) h
  step-IsPage (finishes revision epoch visible lookup) c h =
      finish-IsPage (lookup_of revision epoch visible) lookup c
        (collect_paths-IsPage [] visible (omega arith)) h
  step-IsPage takes c h = rw (take-view_paths c) h
  step-IsPage retries c h = rw (retry-view_paths c) h
  step-IsPage clears c h = omega arith
  step-IsPage (completes request result) c h = rw (complete-view_paths request result c) h

  run-IsPage :
      (es : List (Event R)) (c : NativeThumbnailController R)
      → IsPage (view_paths c)
      → IsPage (view_paths (run es c))
  unfolding run
  run-IsPage [] c h = h
  run-IsPage (e ∷ es) c h = run-IsPage es (step e c) (step-IsPage e c h)

  -- After any history the page of thumbnails has at most six views, no two of one path, and each
  -- under its canonical path.
  run-new-IsPage : (es : List (Event R)) → IsPage (view_paths (run es new_controller))
  run-new-IsPage es = run-IsPage es new_controller (omega arith)
