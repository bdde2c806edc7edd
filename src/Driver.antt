-- ===== src/Driver.antt =====
-- src/native/NativeSlotWorkflowRuntime.{h,cpp}: gives the workflow's calls to a background task, one
-- at a time, and brings their answers back.
use slavetat_ui.Base.{ℕ, Bool, true, false, List, [], ◌∷◌, ◌++◌, Option, none, some, String}
use slavetat_ui.Core.Models.{
  TattooArea, TattooSlots, ApplyTattooRequest, ApplyTattooSuccess, RemoveTattooRequest,
  RemoveTattooSuccess, UpdateTattooAppearanceMode, UpdateTattooAppearanceRequest,
  UpdateTattooAppearanceSuccess, ServiceErrorCode, slot_query_failed, apply_failed, remove_failed,
  synchronize_failed, update_failed, Expected, fail,
}
use slavetat_ui.Core.Runtime.{ITattooRuntime}
use slavetat_ui.Core.Service.{query_slots, apply_to_slot, remove_from_slot, update_appearance}
use slavetat_ui.Workflow.State.{
  SlotQueryTicket, SlotApplyTicket, SlotRemoveTicket, SlotAppearanceTicket, NativeSlotWorkflowModel,
}
use slavetat_ui.Workflow.Completions.{
  take_slot_query, take_apply_request, take_remove_request, take_appearance_request,
  complete_slot_query, complete_apply, complete_remove, complete_appearance_update,
}
pub mod Served
pub mod Liveness

-- The calls that the plugin binds the driver to, on a world `W`; `none` is an exception.
pub record Operations (W : Type 0) : Type 0 where
  pub query : ℕ → TattooArea → W → Option (Expected TattooSlots) × W
  pub apply : ApplyTattooRequest → W → Option (Expected ApplyTattooSuccess) × W
  pub remove : RemoveTattooRequest → W → Option (Expected RemoveTattooSuccess) × W
  pub update_appearance :
      UpdateTattooAppearanceRequest → W → Option (Expected UpdateTattooAppearanceSuccess) × W

-- The driver that the plugin makes (src/main.cpp): its calls are the service's, which do not throw.
abbrev pub service_operations : {W : Type 0} → ITattooRuntime W → Operations W
unfolding query_slots apply_to_slot remove_from_slot update_appearance
service_operations runtime = record {
  query = λ actor_form_id area w.
      let (result, w') = query_slots runtime actor_form_id area w in (some result, w');
  apply = λ request w. let (result, w') = apply_to_slot runtime request w in (some result, w');
  remove = λ request w. let (result, w') = remove_from_slot runtime request w in (some result, w');
  update_appearance =
      λ request w. let (result, w') = update_appearance runtime request w in (some result, w');
}

-- What the lambda given to the scheduler has captured.
pub data Task : Type 0 where
  query_task : SlotQueryTicket → Task
  apply_task : SlotApplyTicket → Task
  remove_task : SlotRemoveTicket → Task
  appearance_task : SlotAppearanceTicket → Task

-- With the tasks that the scheduler has accepted and not yet run, and the world they run in.
pub record NativeSlotWorkflowRuntime (W : Type 0) : Type 0 where
  pub model : NativeSlotWorkflowModel
  pub in_flight : Bool
  pub tasks : List Task
  pub world : W

abbrev pub appearance_error_code : UpdateTattooAppearanceMode → ServiceErrorCode
appearance_error_code UpdateTattooAppearanceMode.synchronize_only = synchronize_failed
appearance_error_code UpdateTattooAppearanceMode.update_and_synchronize = update_failed

-- The result that stands when the operation throws.
abbrev pub result_or {ℓ} :
    {A : Type ℓ} → ServiceErrorCode → String → Option (Expected A) → Expected A
result_or code message none = fail code message
result_or code message (some result) = result

-- The takes of `pump`: the first ticket there is, and the workflow without it.
unfoldable pub next_task : NativeSlotWorkflowModel → Option Task × NativeSlotWorkflowModel
next_task s = elim s.pending_slot_query [
  | some t ↦ (some (query_task t), (take_slot_query s).1)
  | none ↦ elim s.pending_apply [
    | some t ↦ (some (apply_task t), (take_apply_request s).1)
    | none ↦ elim s.pending_remove [
      | some t ↦ (some (remove_task t), (take_remove_request s).1)
      | none ↦ elim s.pending_appearance [
        | some t ↦ (some (appearance_task t), (take_appearance_request s).1)
        | none ↦ (none, s)
      ]
    ]
  ]
]

-- The handlers of a scheduler that throws.
unfoldable pub not_scheduled : Task → NativeSlotWorkflowModel → NativeSlotWorkflowModel
unfolding complete_slot_query complete_apply complete_remove complete_appearance_update
not_scheduled (query_task t) s =
    complete_slot_query t.generation (fail slot_query_failed "Failed to schedule slot query.") s
not_scheduled (apply_task t) s =
    complete_apply t.generation (fail apply_failed "Failed to schedule tattoo apply.") s
not_scheduled (remove_task t) s =
    complete_remove t.generation (fail remove_failed "Failed to schedule tattoo remove.") s
not_scheduled (appearance_task t) s =
    complete_appearance_update t.generation
      (fail (appearance_error_code t.request.mode) "Failed to schedule tattoo appearance update.") s

-- Whether the scheduler accepts the task or throws.
pub data Schedule : Type 0 where
  accepts throws : Schedule

abbrev pub schedule :
    {W : Type 0} → Schedule → Task → NativeSlotWorkflowRuntime W → NativeSlotWorkflowRuntime W
unfolding not_scheduled
schedule accepts task d = record d { tasks = d.tasks ++ (task ∷ []) }
schedule throws task d = record d { model = not_scheduled task d.model; in_flight = false }

-- `pump`, once it has set the flag: an idle workflow clears it again.
schedule_next :
    {W : Type 0}
    → Schedule
    → Option Task × NativeSlotWorkflowModel
    → NativeSlotWorkflowRuntime W
    → NativeSlotWorkflowRuntime W
unfolding not_scheduled
schedule_next outcome (none, model) d = record d { model = model; in_flight = false }
schedule_next outcome (some task, model) d =
    schedule outcome task (record d { model = model; in_flight = true })

unfoldable pub pump :
    {W : Type 0} → Schedule → NativeSlotWorkflowRuntime W → NativeSlotWorkflowRuntime W
unfolding next_task schedule_next
pump outcome d = elim d.in_flight [ true ↦ d | false ↦ schedule_next outcome (next_task d.model) d ]

module _ {W : Type 0} (operations : Operations W) where
  -- The body of a task: the call, and its answer.
  unfoldable pub perform : Task → NativeSlotWorkflowModel → W → NativeSlotWorkflowModel × W
  unfolding complete_slot_query complete_apply complete_remove complete_appearance_update
  perform (query_task t) s w =
      let (result, w') = operations.query t.actor_form_id t.area w in
      (
        complete_slot_query t.generation (result_or slot_query_failed "Slot query failed." result)
            s,
        w',
      )
  perform (apply_task t) s w =
      let (result, w') = operations.apply t.request w in
      (complete_apply t.generation (result_or apply_failed "Tattoo apply failed." result) s, w')
  perform (remove_task t) s w =
      let (result, w') = operations.remove t.request w in
      (complete_remove t.generation (result_or remove_failed "Tattoo remove failed." result) s, w')
  perform (appearance_task t) s w =
      let (result, w') = operations.update_appearance t.request w in
      (
        complete_appearance_update t.generation
            (result_or (appearance_error_code t.request.mode) "Tattoo appearance update failed."
              result)
            s,
        w',
      )

  run_tasks : List Task → NativeSlotWorkflowRuntime W → NativeSlotWorkflowRuntime W
  unfolding perform
  run_tasks [] d = d
  run_tasks (task ∷ rest) d =
      let (model, world) = perform task d.model d.world in
      record { model = model; in_flight = false; tasks = rest; world = world }

  -- The scheduler runs the first of its tasks; the guard clears the flag when it ends.
  unfoldable pub run_task : NativeSlotWorkflowRuntime W → NativeSlotWorkflowRuntime W
  unfolding run_tasks
  run_task d = run_tasks d.tasks d
