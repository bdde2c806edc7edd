-- ===== src/Workflow/Pages.antt =====
-- The pages of the current slots.
use slavetat_ui.Base.{List, [], ◌∷◌, ◌-◌, ◌≤◌, arith}
use slavetat_ui.Catalog.{NativeCatalogBrowserModel}
use slavetat_ui.Workflow.State.{
  new_workflow, NativeSlotWorkflowModel, slot_page_index, slot_page_count,
}
use slavetat_ui.Workflow.Commands.{run, Command, step, starts}

-- The page that is shown is one that there is, or the first where there is none.
abbrev pub IsOnPage : NativeSlotWorkflowModel → Type 0
IsOnPage s = slot_page_index s ≤ slot_page_count s - 1

step-IsOnPage : (c : Command) (s : NativeSlotWorkflowModel) → IsOnPage s → IsOnPage (step c s)
unfolding step slot_page_count
step-IsOnPage starts s h = ground arith
step-IsOnPage c s h = ground arith

run-IsOnPage : (cs : List Command) (s : NativeSlotWorkflowModel) → IsOnPage s → IsOnPage (run cs s)
unfolding run
run-IsOnPage [] s h = h
run-IsOnPage (c ∷ cs) s h = run-IsOnPage cs (step c s) (step-IsOnPage c s h)

-- Over every history the page of slots that is shown is one that there is, or the first of none,
-- whatever results arrive and however the slots shrink.
pub run-new-IsOnPage :
    (catalog : NativeCatalogBrowserModel) (cs : List Command)
    → IsOnPage (run cs (new_workflow catalog))
unfolding slot_page_count
run-new-IsOnPage catalog cs = run-IsOnPage cs (new_workflow catalog) (omega arith)
