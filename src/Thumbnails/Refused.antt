-- ===== src/Thumbnails/Refused.antt =====
-- A scheduler that throws.
use slavetat_ui.Base.{
  ℕ, ◌^◌, ◌<◌, ◌≡◌, ◌∙◌, refl, true, arith, false, Bool-cases, inl, inr, List, length, Option, none,
  some, Option-cases,
}
use slavetat_ui.Thumbnails.State.{NativeThumbnailRequest, is_broken, canonicalize_texture_path}
use slavetat_ui.Thumbnails.Controller.{Loaded, failed}
use slavetat_ui.Thumbnails.Served.{IsSound}
use slavetat_ui.Thumbnails.Runtime.{
  NativeThumbnailTextureSource, NativeThumbnailRuntime, new_runtime, flight_at, Scheduling,
  complete_once, Call, run_at, hand_over, is_due, prune, schedule, pump_available, pump,
}
use slavetat_ui.Thumbnails.Flights.{flight_at-length, take_cases, complete-in_flight}
use slavetat_ui.Thumbnails.Landing.{
  Use, act_all, act_all-IsRun, new_runtime-IsRun, once-lands, task-lands,
}

module _ {R W : Type 0} (source : NativeThumbnailTextureSource R W) where
  once-none :
      (i : ℕ) (result : Loaded R) (s : NativeThumbnailRuntime R)
      → s.controller.in_flight ≡ none
      → (complete_once i result s).controller.in_flight ≡ none
  unfolding complete_once
  once-none i result s e = elim (Option-cases (flight_at i s.flights)) [
    | inl f ↦ rw (f, complete_once) e
    | inr (f, g) ↦ elim (Bool-cases f.completion_claimed) [
      | inl k ↦ rw (g, k, complete_once) e
      | inr k ↦
          rw (g, k, complete_once)
            (ground (arith, complete-in_flight f.request result s.controller, e))
    ]
  ]

  run_at-lands :
      (at : Option ℕ) (i : ℕ) (result : Loaded R) (r : NativeThumbnailRequest) (s : Call R W)
      → canonicalize_texture_path r.texture_path ≡ r.texture_path
      → s.0.controller.in_flight ≡ some r
      → flight_at i s.0.flights ≡ some (record { request = r; completion_claimed = false })
      → (complete_once i result (run_at source at i s).0).controller.in_flight ≡ none
  run_at-lands none i result r s k e f = once-lands source i result r s.0 k e f
  run_at-lands (some now) i result r s k e f =
      once-none i result _ (task-lands source i now r s k e f)

  schedule-lands :
      (scheduling : Scheduling) (r : NativeThumbnailRequest) (s : Call R W)
      → scheduling.throws ≡ true
      → canonicalize_texture_path r.texture_path ≡ r.texture_path
      → s.0.controller.in_flight ≡ some r
      → (schedule source scheduling r s).0.controller.in_flight ≡ none
  unfolding schedule hand_over
  schedule-lands scheduling r (s, w) t k e =
      rw (t, hand_over)
        (run_at-lands scheduling.runs (length s.flights) (failed is_broken) r _ k e
          (flight_at-length s.flights (record { request = r; completion_claimed = false })))

  pump_available-lands :
      (scheduling : Scheduling) (s : Call R W)
      → IsSound s.0.controller
      → s.0.controller.in_flight ≡ none
      → scheduling.throws ≡ true
      → (pump_available source scheduling s).0.controller.in_flight ≡ none
  unfolding pump_available
  pump_available-lands scheduling (s, w) h n t = elim (take_cases s.controller h) [
    | inl (q, e) ↦ rw (q, pump_available) (e ∙ n)
    | inr (r, q, e, k) ↦ rw (q, pump_available) (schedule-lands scheduling r _ t k e)
  ]

  prune_controller : (now : ℕ) (s : Call R W) → (prune source now s).0.controller ≡ s.0.controller
  unfolding prune
  prune_controller now (s, w) = elim (Bool-cases (is_due now s.last_prune)) [
    | inl e ↦ rw (e, prune) refl
    | inr e ↦ rw (e, prune) refl
  ]

  -- After any such use of the runtime (fewer than 2^64 calls) after which no request is in flight,
  -- a pump whose scheduler throws leaves none in flight, whether the scheduler ran the task before
  -- it threw or not.
  pub pump_refused :
      (us : List Use) (w : W) (now : ℕ) (scheduling : Scheduling)
      → length us < 2 ^ 64
      → scheduling.throws ≡ true
      → (act_all source us (new_runtime, w)).0.controller.in_flight ≡ none
      → (pump source now scheduling (act_all source us (new_runtime, w))).0.controller.in_flight
        ≡ none
  unfolding pump
  pump_refused us w now scheduling b t n =
      let s = act_all source us (new_runtime, w) in
      let same = prune_controller now s in
      let sound : IsSound (prune source now s).0.controller =
        rw same
          (act_all-IsRun source us 0 (new_runtime, w) (omega arith)
            (new_runtime-IsRun source)).sound in
      let none_there : (prune source now s).0.controller.in_flight ≡ none = rw same n in
      elim (Bool-cases (source.available (prune source now s).1)) [
        | inl e ↦ rw (e, pump) (pump_available-lands scheduling _ sound none_there t)
        | inr e ↦ rw (e, pump) none_there
      ]
