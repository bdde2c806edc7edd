-- ===== src/Workflow/Tickets.antt =====
-- Generations: which result belongs to which call.
use slavetat_ui.Base.{ℕ, ◌+◌, ◌^◌, ◌≤◌, ◌<◌, ◌≢◌, arith, Option, none, some}
use slavetat_ui.Workflow.State.{NativeSlotWorkflowModel}
use slavetat_ui.Workflow.Commands.{Command, step, starts, refreshes}

-- A call that is waited for has a generation that was given out.
abbrev pub AtMost : ℕ → Option ℕ → Type 0
AtMost n none = Unit {0}
AtMost n (some a) = a ≤ n

-- Two calls that are waited for have two generations.
abbrev pub Apart : Option ℕ → Option ℕ → Type 0
Apart (some a) (some b) = a ≢ b
Apart a b = Unit {0}

pub record IsTracked (s : NativeSlotWorkflowModel) : Type 0 where
  pub query : AtMost s.generation s.active_slot_query
  pub apply : AtMost s.generation s.active_apply
  pub remove : AtMost s.generation s.active_remove
  pub appearance : AtMost s.generation s.active_appearance
  pub query_apply : Apart s.active_slot_query s.active_apply
  pub query_remove : Apart s.active_slot_query s.active_remove
  pub query_appearance : Apart s.active_slot_query s.active_appearance
  pub apply_remove : Apart s.active_apply s.active_remove
  pub apply_appearance : Apart s.active_apply s.active_appearance
  pub remove_appearance : Apart s.active_remove s.active_appearance

pub step-IsTracked :
    (c : Command) (s : NativeSlotWorkflowModel)
    → s.generation + 1 < 2 ^ 64
    → IsTracked s
    → IsTracked (step c s)
unfolding step
step-IsTracked starts s g h = ground arith
step-IsTracked refreshes s g h = ground arith
step-IsTracked c s g h = ground arith
