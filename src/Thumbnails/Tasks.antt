-- ===== src/Thumbnails/Tasks.antt =====
-- A task that is run at once ends its request.
use mathlib.Core.Path.{subst}
use slavetat_ui.Base.{
  ℕ, ◌≡◌, ◌≢◌, refl, arith, sym, ap, ◌∙◌, ◌==◌, inl, inr, true, false, Bool-cases, Text,
  eq_text_refl, [], ◌∷◌, ◌++◌, length, Option, none, some, is_some,
}
use slavetat_ui.Thumbnails.State.{
  NativeThumbnailRequest, NativeThumbnailController, canonicalize_texture_path, status_at,
  cancelled, is_broken, is_missing, device_unavailable,
}
use slavetat_ui.Thumbnails.Controller.{
  Loaded, loaded, failed, receive, complete_taken, complete, is_current,
}
use slavetat_ui.Thumbnails.Flights.{flight_at-length}
use slavetat_ui.Thumbnails.Runtime.{
  NativeThumbnailTextureSource, NativeThumbnailRuntime, Flight, flight_at, claim_at, Scheduling,
  loaded_or_broken, complete_once, run_task, hand_over, schedule,
}

module _ {R : Type 0} where
  -- A result that is no cancellation does not queue its path again.
  receive-queued :
      (path : Text) (result : Loaded R) (c : NativeThumbnailController R)
      → result ≢ failed cancelled
      → ((receive path result c).queued_paths ≡ c.queued_paths)
        × ((receive path result c).in_flight ≡ c.in_flight)
  unfolding receive
  receive-queued path (loaded texture) c h = (refl, refl)
  receive-queued path (failed is_missing) c h = (refl, refl)
  receive-queued path (failed is_broken) c h = (refl, refl)
  receive-queued path (failed device_unavailable) c h = (refl, refl)
  receive-queued path (failed cancelled) c h = absurd (h refl)

  taken-queued :
      (path : Text) (result : Loaded R) (c : NativeThumbnailController R)
      → c.in_flight ≡ none
      → result ≢ failed cancelled
      → let after =
          complete_taken (record { generation = c.generation; texture_path = path }) result c in
        (after.queued_paths ≡ c.queued_paths) × (after.in_flight ≡ none)
  unfolding complete_taken
  taken-queued path result c idle h =
      let kept = receive-queued path result c h in
      elim (Bool-cases (is_some (status_at path c.views))) [
        | inr e ↦ rw e (refl, idle)
        | inl e ↦
            let same : (c.generation == c.generation) ≡ true = ground arith in
            rw (e, same) (kept.0, kept.1 ∙ idle)
      ]

  completes :
      (path : Text) (result : Loaded R) (c : NativeThumbnailController R)
      → canonicalize_texture_path path ≡ path
      → c.in_flight ≡ some (record { generation = c.generation; texture_path = path })
      → complete (record { generation = c.generation; texture_path = path }) result c
        ≡ complete_taken
            (record { generation = c.generation; texture_path = path })
            result
            (record c { in_flight = none })
  unfolding complete
  completes path result c canonical flying =
      let same : (c.generation == c.generation) ≡ true = ground arith in
      rw (flying, complete, canonical, same, eq_text_refl path) refl

  -- The request that was taken from this controller is completed.
  complete-queued :
      (path : Text) (result : Loaded R) (c : NativeThumbnailController R)
      → canonicalize_texture_path path ≡ path
      → c.in_flight ≡ some (record { generation = c.generation; texture_path = path })
      → result ≢ failed cancelled
      → let after = complete (record { generation = c.generation; texture_path = path }) result c in
        (after.queued_paths ≡ c.queued_paths) × (after.in_flight ≡ none)
  complete-queued path result c canonical flying h =
      let taken = completes path result c canonical flying in
      let kept = taken-queued path result (record c { in_flight = none }) refl h in
      (ap (λ d. d.queued_paths) taken ∙ kept.0, ap (λ d. d.in_flight) taken ∙ kept.1)

  current_taken :
      (path : Text) (c : NativeThumbnailController R)
      → canonicalize_texture_path path ≡ path
      → c.in_flight ≡ some (record { generation = c.generation; texture_path = path })
      → is_current (record { generation = c.generation; texture_path = path }) c ≡ true
  unfolding is_current
  current_taken path c canonical flying = ground (arith, flying, canonical, eq_text_refl path)

-- The frame's task is run at once.
abbrev pub at_once : ℕ → Scheduling
at_once now = record { runs = some now; throws = false }

-- What is asked of a source, of the worlds that are `Live`.
pub record Serves {R W : Type 0} (source : NativeThumbnailTextureSource R W) (Live : W → Type 0)
    : Type 0 where
  pub answers : (w : W) → Live w → source.available w ≡ true
  pub prunes : (now : ℕ) (w : W) → Live w → Live (source.prune_expired now w)
  pub loads : (path : Text) (now : ℕ) (w : W) → Live w → Live (source.load path true now w).1
  pub keeps :
      (path : Text) (now : ℕ) (w : W)
      → Live w
      → (source.load path true now w).0 ≢ some (failed cancelled)

module _ {R W : Type 0} (source : NativeThumbnailTextureSource R W) where
  not_cancelled :
      (o : Option (Loaded R)) → o ≢ some (failed cancelled) → loaded_or_broken o ≢ failed cancelled
  not_cancelled none h e = cc
  not_cancelled (some result) h e = h (ap some e)

  complete_once-flight :
      (i : ℕ) (result : Loaded R) (s : NativeThumbnailRuntime R) (request : NativeThumbnailRequest)
      → flight_at i s.flights ≡ some (record { request = request; completion_claimed = false })
      → complete_once i result s ≡ record s {
        controller = complete request result s.controller;
        flights = claim_at i s.flights;
      }
  unfolding complete_once
  complete_once-flight i result s request there = rw (there, complete_once) refl

  run_task-flight :
      (i now : ℕ) (s : NativeThumbnailRuntime R) (w : W) (request : NativeThumbnailRequest)
      → flight_at i s.flights ≡ some (record { request = request; completion_claimed = false })
      → let loading = source.load request.texture_path (is_current request s.controller) now w in
        run_task source i now (s, w) ≡ (complete_once i (loaded_or_broken loading.0) s, loading.1)
  unfolding run_task
  run_task-flight i now s w request there = rw (there, run_task) refl

  run_task-current :
      (i now : ℕ) (s : NativeThumbnailRuntime R) (w : W) (request : NativeThumbnailRequest)
      → flight_at i s.flights ≡ some (record { request = request; completion_claimed = false })
      → is_current request s.controller ≡ true
      → let loading = source.load request.texture_path true now w in
        run_task source i now (s, w) ≡ (
          record s {
            controller = complete request (loaded_or_broken loading.0) s.controller;
            flights = claim_at i s.flights;
          },
          loading.1,
        )
  run_task-current i now s w request there current =
      let loading = source.load request.texture_path true now w in
      run_task-flight i now s w request there
      ∙ ap
          (λ b. (
            complete_once i (loaded_or_broken (source.load request.texture_path b now w).0) s,
            (source.load request.texture_path b now w).1,
          ))
          current
      ∙ ap (λ t. (t, loading.1))
          (complete_once-flight i (loaded_or_broken loading.0) s request there)

  -- A task that runs on its own completes its request.
  pub schedule-queued :
      (Live : W → Type 0)
      → Serves source Live
      → (path : Text) (now : ℕ) (s : NativeThumbnailRuntime R) (w : W)
      → canonicalize_texture_path path ≡ path
      → s.controller.in_flight
        ≡ some (record { generation = s.controller.generation; texture_path = path })
      → Live w
      → let request : NativeThumbnailRequest = record {
        generation = s.controller.generation;
        texture_path = path;
      } in
        let after = schedule source (at_once now) request (s, w) in
        (after.0.controller.queued_paths ≡ s.controller.queued_paths)
        × (after.0.controller.in_flight ≡ none)
        × Live after.1
  unfolding schedule hand_over
  schedule-queued Live serves path now s w canonical flying live =
      let request : NativeThumbnailRequest = record {
        generation = s.controller.generation;
        texture_path = path;
      } in
      let flight : Flight = record { request = request; completion_claimed = false } in
      let ran =
        run_task-current (length s.flights) now (record s { flights = s.flights ++ (flight ∷ []) })
          w request (flight_at-length s.flights flight)
          (current_taken path s.controller canonical flying) in
      let kept =
        complete-queued path (loaded_or_broken (source.load path true now w).0) s.controller
          canonical flying (not_cancelled _ (serves.keeps path now w live)) in
      (
        ap (λ r. r.0.controller.queued_paths) ran ∙ kept.0,
        ap (λ r. r.0.controller.in_flight) ran ∙ kept.1,
        subst (λ r. Live r.1) (sym ran) (serves.loads path now w live),
      )
