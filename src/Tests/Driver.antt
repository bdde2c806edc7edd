-- ===== src/Tests/Driver.antt =====
-- The theorems of the driver.
use slavetat_ui.Base.{refl, arith, ℕ, false, []}
use slavetat_ui.Catalog.{new_catalog}
use slavetat_ui.Workflow.Commands.{run, step, starts, refreshes}
use slavetat_ui.Workflow.State.{area_name, equals_folded_ascii}
use slavetat_ui.Driver.{NativeSlotWorkflowRuntime, accepts, service_operations, pump, run_task}
use slavetat_ui.Driver.Served.{
  IsServed, at_first, further, pumps, does, new_driver, Reaches-IsServed,
}
use slavetat_ui.Driver.Liveness.{IsAnswered, serves, seven_rounds}
use slavetat_ui.Tests.Samples.{accepting, applying_history, after_commands}

abbrev new : NativeSlotWorkflowRuntime ℕ
new = new_driver new_catalog 0

abbrev querying : NativeSlotWorkflowRuntime ℕ
querying = pump accepts (record new { model = step starts new.model })

-- The first query is in flight when the user asks for another.
Reaches-IsServed_example : IsServed (record querying { model = step refreshes querying.model })
Reaches-IsServed_example =
    Reaches-IsServed (service_operations accepting) new_catalog 0
      (further (further (further at_first (does starts tt)) (pumps accepts)) (does refreshes tt))

abbrev waiting : NativeSlotWorkflowRuntime ℕ
waiting = record {
  model = after_commands applying_history;
  in_flight = false;
  tasks = [];
  world = 0;
}

waiting-IsServed : IsServed waiting
unfolding run step area_name equals_folded_ascii
waiting-IsServed = record { alone = refl; calls = ground arith }

seven_rounds_example :
    IsAnswered
      (serves
        (service_operations accepting)
        7
        (run_task (service_operations accepting) waiting)).model
seven_rounds_example = seven_rounds (service_operations accepting) waiting waiting-IsServed
