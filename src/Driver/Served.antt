-- ===== src/Driver/Served.antt =====
-- No call of the workflow is lost: each is waiting to be taken or is in flight, and is answered.
use slavetat_ui.Base.{
  ℕ, ◌≡◌, refl, ◌⊎◌, inl, inr, arith, Bool-cases, Bool, true, false, List, [], ◌∷◌, Option, none,
  some,
}
use slavetat_ui.Workflow.State.{NativeSlotWorkflowModel, new_workflow}
use slavetat_ui.Workflow.Commands.{
  Command, step, starts, takes_query, takes_apply, takes_remove, takes_appearance, completes_query,
  completes_apply, completes_remove, completes_update,
}
use slavetat_ui.Catalog.{NativeCatalogBrowserModel}
use slavetat_ui.Driver.{
  Operations, Task, query_task, apply_task, remove_task, appearance_task, NativeSlotWorkflowRuntime,
  Schedule, accepts, throws, schedule_next, next_task, not_scheduled, pump, perform, run_tasks,
  run_task,
}

-- The commands that are not the driver's own.
abbrev pub IsInput : Command → Type 0
IsInput takes_query = ⊥
IsInput takes_apply = ⊥
IsInput takes_remove = ⊥
IsInput takes_appearance = ⊥
IsInput (completes_query g r) = ⊥
IsInput (completes_apply g r) = ⊥
IsInput (completes_remove g r) = ⊥
IsInput (completes_update g r) = ⊥
IsInput c = Unit {0}

-- What can happen to a driver: the frame pumps it, the scheduler runs a task, the user does something.
pub data Moves {W : Type 0} (operations : Operations W) (d : NativeSlotWorkflowRuntime W)
    : NativeSlotWorkflowRuntime W → Type 0 where
  pumps : (outcome : Schedule) → Moves operations d (pump outcome d)
  runs : Moves operations d (run_task operations d)
  does : (c : Command) → IsInput c → Moves operations d (record d { model = step c d.model })

-- A task is in flight exactly while the flag is set, and then just one.
abbrev pub IsAlone : List Task → Bool → Type 0
IsAlone [] flag = flag ≡ false
IsAlone (task ∷ []) flag = flag ≡ true
IsAlone (task ∷ other ∷ rest) flag = ⊥

abbrev pub Waiting {ℓ} : {A : Type ℓ} → (A → ℕ) → Option A → ℕ → Type 0
Waiting generation none g = ⊥
Waiting generation (some t) g = generation t ≡ g

abbrev pub Flying : List Task → (Task → ℕ → Type 0) → ℕ → Type 0
Flying [] is g = ⊥
Flying (task ∷ rest) is g = is task g

abbrev pub IsQuery : Task → ℕ → Type 0
IsQuery (query_task t) g = t.generation ≡ g
IsQuery task g = ⊥

abbrev pub IsApply : Task → ℕ → Type 0
IsApply (apply_task t) g = t.generation ≡ g
IsApply task g = ⊥

abbrev pub IsRemove : Task → ℕ → Type 0
IsRemove (remove_task t) g = t.generation ≡ g
IsRemove task g = ⊥

abbrev pub IsAppearance : Task → ℕ → Type 0
IsAppearance (appearance_task t) g = t.generation ≡ g
IsAppearance task g = ⊥

-- A call that the workflow waits for is waiting to be taken, or in flight.
abbrev pub Serves : Option ℕ → (ℕ → Type 0) → (ℕ → Type 0) → Type 0
Serves none waiting flying = Unit {0}
Serves (some g) waiting flying = waiting g ⊎ flying g

pub record HasCalls (s : NativeSlotWorkflowModel) (tasks : List Task) : Type 0 where
  pub query :
      Serves s.active_slot_query
        (Waiting (λ t. t.generation) s.pending_slot_query)
        (Flying tasks IsQuery)
  pub apply :
      Serves s.active_apply (Waiting (λ t. t.generation) s.pending_apply) (Flying tasks IsApply)
  pub remove :
      Serves s.active_remove (Waiting (λ t. t.generation) s.pending_remove) (Flying tasks IsRemove)
  pub appearance :
      Serves s.active_appearance
        (Waiting (λ t. t.generation) s.pending_appearance)
        (Flying tasks IsAppearance)

pub record IsServed {W : Type 0} (d : NativeSlotWorkflowRuntime W) : Type 0 where
  pub alone : IsAlone d.tasks d.in_flight
  pub calls : HasCalls d.model d.tasks

step-HasCalls :
    (c : Command) (s : NativeSlotWorkflowModel) (tasks : List Task)
    → IsInput c
    → HasCalls s tasks
    → HasCalls (step c s) tasks
unfolding step
step-HasCalls starts s tasks i h = ground arith
step-HasCalls c s tasks i h = ground arith

not_scheduled-HasCalls :
    (task : Task) (s : NativeSlotWorkflowModel)
    → HasCalls s (task ∷ [])
    → HasCalls (not_scheduled task s) []
unfolding not_scheduled
not_scheduled-HasCalls (query_task t) s h = ground arith
not_scheduled-HasCalls (apply_task t) s h = ground arith
not_scheduled-HasCalls (remove_task t) s h = ground arith
not_scheduled-HasCalls (appearance_task t) s h = ground arith

next_task-HasCalls :
    (s : NativeSlotWorkflowModel) (task : Task)
    → HasCalls s []
    → (next_task s).0 ≡ some task
    → HasCalls (next_task s).1 (task ∷ [])
unfolding next_task
next_task-HasCalls s task h e = ground arith

next_task-none :
    (s : NativeSlotWorkflowModel)
    → HasCalls s []
    → (next_task s).0 ≡ none
    → HasCalls (next_task s).1 []
unfolding next_task
next_task-none s h e = ground arith

schedule_next-IsServed :
    {W : Type 0} (outcome : Schedule) (o : Option Task) (s : NativeSlotWorkflowModel)
    (d : NativeSlotWorkflowRuntime W)
    → d.tasks ≡ []
    → (o ≡ none → HasCalls s [])
    → ((task : Task) → o ≡ some task → HasCalls s (task ∷ []))
    → IsServed (schedule_next outcome (o, s) d)
unfolding schedule_next
schedule_next-IsServed outcome none s d e idle busy = record {
  alone = rw e refl;
  calls = rw e (idle refl);
}
schedule_next-IsServed accepts (some task) s d e idle busy = record {
  alone = rw e refl;
  calls = rw e (busy task refl);
}
schedule_next-IsServed throws (some task) s d e idle busy = record {
  alone = rw e refl;
  calls = rw e (not_scheduled-HasCalls task s (busy task refl));
}

IsAlone-empty : (tasks : List Task) → IsAlone tasks false → tasks ≡ []
IsAlone-empty [] h = refl
IsAlone-empty (task ∷ []) h = cc
IsAlone-empty (task ∷ (other ∷ rest)) h = elim h [ ]

pump-IsServed :
    {W : Type 0} (outcome : Schedule) (d : NativeSlotWorkflowRuntime W)
    → IsServed d
    → IsServed (pump outcome d)
unfolding pump
pump-IsServed outcome d h = elim (Bool-cases d.in_flight) [
  | inl e ↦ rw (e, pump) h
  | inr e ↦
      let none_left = IsAlone-empty d.tasks (rw e at h.alone) in
      let calls = rw none_left at h.calls in
      rw (e, pump)
        (schedule_next-IsServed outcome (next_task d.model).0 (next_task d.model).1 d none_left
          (next_task-none d.model calls) (λ task. next_task-HasCalls d.model task calls))
]

module _ {W : Type 0} (operations : Operations W) where
  perform-HasCalls :
      (task : Task) (s : NativeSlotWorkflowModel) (w : W)
      → HasCalls s (task ∷ [])
      → HasCalls (perform operations task s w).0 []
  unfolding perform
  perform-HasCalls (query_task t) s w h = ground arith
  perform-HasCalls (apply_task t) s w h = ground arith
  perform-HasCalls (remove_task t) s w h = ground arith
  perform-HasCalls (appearance_task t) s w h = ground arith

  run_tasks-IsServed :
      (tasks : List Task) (d : NativeSlotWorkflowRuntime W)
      → IsServed (record d { tasks = tasks })
      → IsServed (run_tasks operations tasks (record d { tasks = tasks }))
  unfolding run_tasks
  run_tasks-IsServed [] d h = h
  run_tasks-IsServed (task ∷ []) d h = record {
    alone = refl;
    calls = perform-HasCalls task d.model d.world h.calls;
  }
  run_tasks-IsServed (task ∷ (other ∷ rest)) d h = elim h.alone [ ]

  -- Whatever happens to the driver, each call that the workflow waits for is there to be taken or is
  -- in flight, and one task at most is in flight, exactly while the flag is set.
  pub Moves-IsServed :
      {d d' : NativeSlotWorkflowRuntime W} → Moves operations d d' → IsServed d → IsServed d'
  unfolding run_task
  Moves-IsServed {d} (pumps outcome) h = pump-IsServed outcome d h
  Moves-IsServed {d} runs h = run_tasks-IsServed d.tasks d h
  Moves-IsServed {d} (does c i) h = record {
    alone = h.alone;
    calls = step-HasCalls c d.model d.tasks i h.calls;
  }

-- What a driver becomes, event by event.
pub data Reaches {W : Type 0} (operations : Operations W) (d : NativeSlotWorkflowRuntime W)
    : NativeSlotWorkflowRuntime W → Type 0 where
  at_first : Reaches operations d d
  further :
      {e f : NativeSlotWorkflowRuntime W}
      → Reaches operations d e
      → Moves operations e f
      → Reaches operations d f

abbrev pub new_driver : {W : Type 0} → NativeCatalogBrowserModel → W → NativeSlotWorkflowRuntime W
new_driver catalog world = record {
  model = new_workflow catalog;
  in_flight = false;
  tasks = [];
  world = world;
}

-- However the frames, the scheduler and the user take turns, and whatever the calls return or
-- throw, each call that the workflow waits for is there to be taken or is in flight, and one task
-- at most is in flight, exactly while the flag is set.
pub Reaches-IsServed :
    {W : Type 0} (operations : Operations W) (catalog : NativeCatalogBrowserModel) (world : W)
    {d : NativeSlotWorkflowRuntime W}
    → Reaches operations (new_driver catalog world) d
    → IsServed d
Reaches-IsServed operations catalog world at_first = record { alone = refl; calls = ground arith }
Reaches-IsServed operations catalog world (further r m) =
    Moves-IsServed operations m (Reaches-IsServed operations catalog world r)
