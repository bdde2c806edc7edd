-- ===== src/Workflow.antt =====
-- The slot workflow (src/native/NativeSlotWorkflowModel.{h,cpp}): a state machine over the screens
-- of the window, with tickets for the calls that a background task makes for it.
pub mod State
pub mod Actions
pub mod Edits
pub mod Completions
pub mod Commands
pub mod Tickets
pub mod Window
pub mod Progress
pub mod Pages
pub mod Ranges
pub mod Requests
pub mod Results
pub mod Retry
