-- ===== src/Tests/Thumbnails.antt =====
-- The theorems of the thumbnails.
use slavetat_ui.Base.{
  ℕ, ◌+◌, ◌≡◌, refl, arith, true, false, Text, codes, List, [], ◌∷◌, ◌++◌, none, some,
}
use slavetat_ui.Thumbnails.State.{
  cancelled, NativeThumbnailRequest, new_controller, status_at, is_queued, loading,
}
use slavetat_ui.Thumbnails.Controller.{failed}
use slavetat_ui.Thumbnails.Served.{IsServed}
use slavetat_ui.Thumbnails.Runtime.{
  NativeThumbnailTextureSource, new_runtime, flight_at, run_task, pump,
}
use slavetat_ui.Thumbnails.Landing.{Use, synchronizes, pumps, act_all, flight_lands}
use slavetat_ui.Thumbnails.Refused.{pump_refused}
use slavetat_ui.Thumbnails.History.{
  Event, begins, finishes, takes, completes, run, run-new-IsServed,
}

abbrev rose : Text
rose = codes "rose.dds"

abbrev wolf : Text
wolf = codes "wolf.dds"

abbrev page_of_two : List Text
page_of_two = codes "Rose.dds" ∷ (wolf ∷ (rose ∷ []))

-- The textures are numbers. The load of the rose is cancelled by a second page, whose cache has the wolf.
abbrev turning : List (Event ℕ)
turning =
    begins 7 page_of_two
    ∷ (finishes 1 7 page_of_two (λ path. none)
        ∷ (takes
            ∷ (begins 7 (rose ∷ [])
                ∷ (finishes 2 7 (rose ∷ []) (λ path. none)
                    ∷ (completes (record { generation = 1; texture_path = rose }) (failed cancelled)
                        ∷ [])))))

rose_waits : is_queued rose (run turning new_controller) ≡ true
unfolding run
rose_waits = refl

rose_loads : status_at rose (run (turning ++ (takes ∷ [])) new_controller).views ≡ some loading
unfolding run status_at
rose_loads = refl

run-new-IsServed_example : IsServed (run turning new_controller) rose
run-new-IsServed_example = run-new-IsServed turning rose (omega arith)

-- A source without textures, whose loads throw.
abbrev pub source : NativeThumbnailTextureSource ℕ ℕ
source = record {
  find = λ path now w. (some none, w + 1);
  load = λ path current now w. (none, w + 1);
  prune_expired = λ now w. w + 1;
  clear = λ w. w + 1;
  available = λ w. true;
}

-- The scheduler keeps the task.
abbrev browsing : List Use
browsing = synchronizes 0 7 page_of_two ∷ (pumps 5 (record { runs = none; throws = false }) ∷ [])

abbrev rose_request : NativeThumbnailRequest
rose_request = record { generation = 1; texture_path = rose }

flight_lands_example :
    let s = act_all source browsing (new_runtime, 0) in
    (i : ℕ) × (flight_at i s.0.flights
      ≡ some (record { request = rose_request; completion_claimed = false }))
    × ((run_task source i 9 s).0.controller.in_flight ≡ none)
unfolding act_all
flight_lands_example = flight_lands source browsing 0 9 rose_request (omega arith) refl

-- The scheduler throws at the frame.
pump_refused_example :
    let s = act_all source (synchronizes 0 7 page_of_two ∷ []) (new_runtime, 0) in
    (pump source 5 (record { runs = none; throws = true }) s).0.controller.in_flight ≡ none
unfolding act_all
pump_refused_example =
    pump_refused source (synchronizes 0 7 page_of_two ∷ []) 0 5
      (record { runs = none; throws = true }) (omega arith) refl refl
