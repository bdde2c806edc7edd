-- ===== src/Driver/Liveness.antt =====
-- Every call is answered, in few rounds of the frame and the scheduler.
use slavetat_ui.Base.{
  inl, inr, Option-cases, ℕ, ◌+◌, ◌-◌, ◌≤◌, ◌≡◌, refl, arith, false, [], Option, none, some, zero,
  suc,
}
use slavetat_ui.Workflow.State.{NativeSlotWorkflowModel}
use slavetat_ui.Driver.{
  Operations, Task, NativeSlotWorkflowRuntime, accepts, next_task, schedule_next, pump, perform,
  run_tasks, run_task,
}
use slavetat_ui.Driver.Served.{IsServed, HasCalls, Moves-IsServed, pumps, runs}

abbrev weight {ℓ} : {A : Type ℓ} → ℕ → Option A → ℕ
weight n none = 0
weight n (some a) = n

-- How many calls are still to be taken; each but a query may bring a query after it.
abbrev work : NativeSlotWorkflowModel → ℕ
work s =
    weight 1 s.pending_slot_query
    + weight 2 s.pending_apply
    + weight 2 s.pending_remove
    + weight 2 s.pending_appearance

abbrev pub IsAnswered : NativeSlotWorkflowModel → Type 0
IsAnswered s =
    (s.active_slot_query ≡ none)
    × (s.active_apply ≡ none)
    × (s.active_remove ≡ none)
    × (s.active_appearance ≡ none)

HasCalls-IsAnswered : (s : NativeSlotWorkflowModel) → HasCalls s [] → work s ≡ 0 → IsAnswered s
HasCalls-IsAnswered s h e = ground arith

work_le : (s : NativeSlotWorkflowModel) → work s ≤ 7
work_le s = ground arith

module _ {W : Type 0} (operations : Operations W) where
  -- One frame and one run of the scheduler.
  unfoldable pub serve : NativeSlotWorkflowRuntime W → NativeSlotWorkflowRuntime W
  unfolding pump run_task
  serve d = run_task operations (pump accepts d)

  unfoldable pub serves : ℕ → NativeSlotWorkflowRuntime W → NativeSlotWorkflowRuntime W
  unfolding serve
  serves zero d = d
  serves (suc n) d = serves n (serve d)

  run_task-empty :
      (d : NativeSlotWorkflowRuntime W) → IsServed d → (run_task operations d).tasks ≡ []
  unfolding run_task run_tasks
  run_task-empty d h = ground arith

  perform-work :
      (s : NativeSlotWorkflowModel) (task : Task) (w : W)
      → (next_task s).0 ≡ some task
      → work (perform operations task (next_task s).1 w).0 ≤ work s - 1
  unfolding next_task perform
  perform-work s task w e = ground arith

  -- The states between two rounds.
  record IsBetween (d : NativeSlotWorkflowRuntime W) : Type 0 where
    served : IsServed d
    idle : d.tasks ≡ []

  serve-IsBetween : (d : NativeSlotWorkflowRuntime W) → IsServed d → IsBetween (serve d)
  unfolding serve
  serve-IsBetween d h =
      let pumped = Moves-IsServed operations (pumps accepts) h in
      record {
        served = Moves-IsServed operations runs pumped;
        idle = run_task-empty (pump accepts d) pumped;
      }

  idle-work :
      (s : NativeSlotWorkflowModel) → (next_task s).0 ≡ none → work (next_task s).1 ≤ work s - 1
  unfolding next_task
  idle-work s e = ground arith

  -- A round runs the task that is taken, if there is one.
  serve-model :
      (d : NativeSlotWorkflowRuntime W) (o : Option Task) (s : NativeSlotWorkflowModel)
      → IsBetween d
      → (run_task operations (schedule_next accepts (o, s) d)).model
        ≡ elim o [ none ↦ s | some task ↦ (perform operations task s d.world).0 ]
  unfolding run_task run_tasks schedule_next
  serve-model d none s h = rw h.idle refl
  serve-model d (some task) s h = rw h.idle refl

  serve-work :
      (d : NativeSlotWorkflowRuntime W) → IsBetween d → work (serve d).model ≤ work d.model - 1
  unfolding serve pump
  serve-work d h =
      let flag : d.in_flight ≡ false = rw h.idle at h.served.alone in
      let e = serve-model d (next_task d.model).0 (next_task d.model).1 h in
      elim (Option-cases (next_task d.model).0) [
        | inl n ↦ rw (serve, pump, flag, e, n) (idle-work d.model n)
        | inr (t, n) ↦ rw (serve, pump, flag, e, n) (perform-work d.model t d.world n)
      ]

  serves-IsAnswered :
      (n : ℕ) (d : NativeSlotWorkflowRuntime W)
      → IsBetween d
      → work d.model ≤ n
      → IsAnswered (serves n d).model
  unfolding serves
  serves-IsAnswered zero d h b =
      HasCalls-IsAnswered d.model (rw h.idle at h.served.calls) (omega arith)
  serves-IsAnswered (suc n) d h b =
      serves-IsAnswered n (serve d) (serve-IsBetween d h.served) (omega (arith, serve-work d h))

  -- In any state of the driver in which no call is lost, once the task in flight has ended and
  -- seven rounds have passed in which the scheduler accepts a task and runs it, the workflow waits
  -- for nothing, whatever the calls returned or threw.
  pub seven_rounds :
      (d : NativeSlotWorkflowRuntime W)
      → IsServed d
      → IsAnswered (serves 7 (run_task operations d)).model
  seven_rounds d h =
      let after = Moves-IsServed operations runs h in
      serves-IsAnswered 7 (run_task operations d)
        (record { served = after; idle = run_task-empty d h })
        (work_le (run_task operations d).model)
