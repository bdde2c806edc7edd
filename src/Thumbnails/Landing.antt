-- ===== src/Thumbnails/Landing.antt =====
-- Every use of the runtime of the thumbnails.
use slavetat_ui.Base.{
  ℕ, ◌+◌, ◌^◌, ◌<◌, ◌≤◌, ◌≡◌, arith, false, Bool-cases, inl, inr, Text, List, [], ◌∷◌, length,
  Option, none, some, Option-cases,
}
use slavetat_ui.Thumbnails.State.{NativeThumbnailRequest, is_broken, canonicalize_texture_path}
use slavetat_ui.Thumbnails.Controller.{
  Lookup, collect_paths, begin_synchronize, abandon_synchronize, finish_synchronize,
  take_next_request, Loaded, place_view, place_views, failed, complete,
}
use slavetat_ui.Thumbnails.Controller
use slavetat_ui.Thumbnails.Places.{clear-IsSound}
use slavetat_ui.Thumbnails.Served.{IsServed, IsSound, take-IsSound}
use slavetat_ui.Thumbnails.History.{new_controller-IsSound}
use slavetat_ui.Thumbnails.Runtime.{
  NativeThumbnailTextureSource, NativeThumbnailRuntime, new_runtime, flight_at, Scheduling,
  complete_once, Call, synchronize, run_task, run_at, hand_over, is_due, prune, schedule,
  pump_available, pump, reset,
}
use slavetat_ui.Thumbnails.Flights.{
  IsCarried, IsCarried-some, IsRun, flight_at-length, complete_once-IsRun, take_cases,
  take-generation, complete-same,
}
use slavetat_ui.Thumbnails.Lookups.{weaken, begun_paths, begin-IsRun, found_all-IsRun}

-- What the game's thread and the scheduler do, with the time.
pub data Use : Type 0 where
  synchronizes : ℕ → ℕ → List Text → Use
  pumps : ℕ → Scheduling → Use
  runs : ℕ → ℕ → Use
  resets : Use

module _ {R W : Type 0} (source : NativeThumbnailTextureSource R W) where
  unfoldable pub act : Use → Call R W → Call R W
  unfolding synchronize run_task pump reset
  act (synchronizes now epoch paths) s = (synchronize source now epoch paths s).1
  act (pumps now scheduling) s = pump source now scheduling s
  act (runs i now) s = run_task source i now s
  act resets s = reset source s

  unfoldable pub act_all : List Use → Call R W → Call R W
  unfolding act
  act_all [] s = s
  act_all (u ∷ us) s = act_all us (act u s)

  run_task-IsRun :
      (bound i now : ℕ) (s : Call R W) → IsRun bound s.0 → IsRun bound (run_task source i now s).0
  unfolding run_task
  run_task-IsRun bound i now (s, w) h = elim (Option-cases (flight_at i s.flights)) [
    | inl e ↦ rw (e, run_task) h
    | inr (f, e) ↦ elim (Bool-cases f.completion_claimed) [
      | inl k ↦ rw (e, k, run_task) h
      | inr k ↦ rw (e, k, run_task) (complete_once-IsRun i _ bound s h)
    ]
  ]

  run_at-IsRun :
      (at : Option ℕ) (bound i : ℕ) (s : Call R W)
      → IsRun bound s.0
      → IsRun bound (run_at source at i s).0
  run_at-IsRun none bound i s h = h
  run_at-IsRun (some now) bound i s h = run_task-IsRun bound i now s h

  hand_over-IsRun :
      (scheduling : Scheduling) (bound i : ℕ) (s : Call R W)
      → IsRun bound s.0
      → IsRun bound (hand_over source scheduling i s).0
  unfolding hand_over
  hand_over-IsRun scheduling bound i s h =
      let ran = run_at-IsRun scheduling.runs bound i s h in
      elim (Bool-cases scheduling.throws) [
        | inl e ↦ rw (e, hand_over) (complete_once-IsRun i (failed is_broken) bound _ ran)
        | inr e ↦ rw (e, hand_over) ran
      ]

  schedule-IsRun :
      (scheduling : Scheduling) (bound : ℕ) (r : NativeThumbnailRequest) (s : Call R W)
      → IsSound s.0.controller
      → s.0.controller.generation ≤ bound
      → s.0.controller.in_flight ≡ some r
      → canonicalize_texture_path r.texture_path ≡ r.texture_path
      → IsRun bound (schedule source scheduling r s).0
  unfolding schedule
  schedule-IsRun scheduling bound r (s, w) h b e k =
      hand_over-IsRun scheduling bound (length s.flights) _ (record {
        sound = h;
        carried = IsCarried-some _ r _ e k (
          length s.flights,
          flight_at-length s.flights (record { request = r; completion_claimed = false }),
        );
        bounded = b;
      })

  pump_available-IsRun :
      (scheduling : Scheduling) (bound : ℕ) (s : Call R W)
      → IsRun bound s.0
      → IsRun bound (pump_available source scheduling s).0
  unfolding pump_available
  pump_available-IsRun scheduling bound (s, w) h =
      let sound = take-IsSound s.controller h.sound in
      let b : (take_next_request s.controller).1.generation ≤ bound =
        omega (arith, take-generation s.controller, h.bounded) in
      elim (take_cases s.controller h.sound) [
        | inl (n, e) ↦
            rw (n, pump_available) (record { sound = sound; carried = rw e h.carried; bounded = b })
        | inr (r, t, e, k) ↦
            rw (t, pump_available) (schedule-IsRun scheduling bound r _ sound b e k)
      ]

  prune-IsRun :
      (now bound : ℕ) (s : Call R W) → IsRun bound s.0 → IsRun bound (prune source now s).0
  unfolding prune
  prune-IsRun now bound (s, w) h = elim (Bool-cases (is_due now s.last_prune)) [
    | inl e ↦ rw (e, prune) (record { sound = h.sound; carried = h.carried; bounded = h.bounded })
    | inr e ↦ rw (e, prune) h
  ]

  pump-IsRun :
      (now : ℕ) (scheduling : Scheduling) (bound : ℕ) (s : Call R W)
      → IsRun bound s.0
      → IsRun bound (pump source now scheduling s).0
  unfolding pump
  pump-IsRun now scheduling bound s h =
      let pruned = prune-IsRun now bound s h in
      elim (Bool-cases (source.available (prune source now s).1)) [
        | inl e ↦ rw (e, pump) (pump_available-IsRun scheduling bound _ pruned)
        | inr e ↦ rw (e, pump) pruned
      ]

  synchronize-IsRun :
      (now epoch : ℕ) (paths : List Text) (bound : ℕ) (s : Call R W)
      → bound + 1 < 2 ^ 64
      → IsRun bound s.0
      → IsRun (bound + 1) (synchronize source now epoch paths s).1.0
  unfolding synchronize
  synchronize-IsRun now epoch paths bound (s, w) b h =
      let begun = begin-IsRun epoch paths bound s b h in
      elim (Option-cases (begin_synchronize epoch paths s.controller).0) [
        | inl e ↦ rw (e, synchronize) (weaken bound _ _ (omega arith) begun)
        | inr (l, e) ↦
            rw (e, synchronize)
              (found_all-IsRun l _ bound _ b (begun_paths epoch paths s.controller l e) begun)
      ]

  act-IsRun :
      (u : Use) (bound : ℕ) (s : Call R W)
      → bound + 1 < 2 ^ 64
      → IsRun bound s.0
      → IsRun (bound + 1) (act u s).0
  unfolding act reset Controller.clear
  act-IsRun (synchronizes now epoch paths) bound s b h =
      synchronize-IsRun now epoch paths bound s b h
  act-IsRun (pumps now scheduling) bound s b h =
      weaken bound _ _ (omega arith) (pump-IsRun now scheduling bound s h)
  act-IsRun (runs i now) bound s b h =
      weaken bound _ _ (omega arith) (run_task-IsRun bound i now s h)
  act-IsRun resets bound s b h = record {
    sound = clear-IsSound s.0.controller (omega (arith, h.bounded)) h.sound;
    carried = h.carried;
    bounded = ground (arith, h.bounded);
  }

  pub act_all-IsRun :
      (us : List Use) (bound : ℕ) (s : Call R W)
      → bound + length us < 2 ^ 64
      → IsRun bound s.0
      → IsRun (bound + length us) (act_all us s).0
  unfolding act_all
  act_all-IsRun [] bound s b h = weaken bound _ s.0 (omega arith) h
  act_all-IsRun (u ∷ us) bound s b h =
      weaken (bound + 1 + length us) _ _ (omega arith)
        (act_all-IsRun us (bound + 1) (act u s) (omega arith) (act-IsRun u bound s (omega arith) h))

  pub new_runtime-IsRun : IsRun 0 (new_runtime {R = R})
  new_runtime-IsRun = record { sound = new_controller-IsSound; carried = tt; bounded = omega arith }

  -- Over every such use of the runtime (fewer than 2^64 calls), with look-ups and loads that may
  -- throw, each path is served: on the page it is ready, has its failure remembered, is queued, in
  -- flight, or waits for the device; and nothing off the page is queued.
  act_all-IsServed :
      (us : List Use) (w : W) (path : Text)
      → length us < 2 ^ 64
      → IsServed (act_all us (new_runtime, w)).0.controller path
  act_all-IsServed us w path b =
      (act_all-IsRun us 0 (new_runtime, w) (omega arith) new_runtime-IsRun).sound.paths path

  pub once-lands :
      (i : ℕ) (result : Loaded R) (r : NativeThumbnailRequest) (s : NativeThumbnailRuntime R)
      → canonicalize_texture_path r.texture_path ≡ r.texture_path
      → s.controller.in_flight ≡ some r
      → flight_at i s.flights ≡ some (record { request = r; completion_claimed = false })
      → (complete_once i result s).controller.in_flight ≡ none
  unfolding complete_once
  once-lands i result r s k e f = rw (f, complete_once) (complete-same r result s.controller k e)

  -- A task that was not claimed takes its request off when it runs.
  pub task-lands :
      (i now : ℕ) (r : NativeThumbnailRequest) (s : Call R W)
      → canonicalize_texture_path r.texture_path ≡ r.texture_path
      → s.0.controller.in_flight ≡ some r
      → flight_at i s.0.flights ≡ some (record { request = r; completion_claimed = false })
      → (run_task source i now s).0.controller.in_flight ≡ none
  unfolding run_task
  task-lands i now r (s, w) k e f = rw (f, run_task) (once-lands i _ r s k e f)

  -- However the page is synchronized, frames are pumped, tasks are run (at once, later, more than
  -- once or never) and the runtime is reset (fewer than 2^64 of these), and whether the scheduler
  -- returns or throws: when a request is in flight, there is a task of it whose completion was not
  -- claimed, and when it runs, at any time, the request is not in flight any more, whatever the
  -- load gives or throws.
  pub flight_lands :
      (us : List Use) (w : W) (now : ℕ) (r : NativeThumbnailRequest)
      → length us < 2 ^ 64
      → (act_all us (new_runtime, w)).0.controller.in_flight ≡ some r
      → let s = act_all us (new_runtime, w) in
        (i : ℕ) × (flight_at i s.0.flights
          ≡ some (record { request = r; completion_claimed = false }))
        × ((run_task source i now s).0.controller.in_flight ≡ none)
  flight_lands us w now r b e =
      let h = act_all-IsRun us 0 (new_runtime, w) (omega arith) new_runtime-IsRun in
      let (k, (i, f)) : IsCarried (some r) (act_all us (new_runtime, w)).0.flights =
        rw e at h.carried in
      (i, f, task-lands i now r _ k e f)
