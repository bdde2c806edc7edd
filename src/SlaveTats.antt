-- ===== src/SlaveTats.antt =====
-- src/runtime/SlaveTatsRuntime.{h,cpp}, OverlaySlotConfiguration.{h,cpp} and include/jcontainers_mini.h: the
-- calls of the SlaveTatsNG and JContainers plugins.
pub mod JContainers
pub mod Calls
pub mod Configuration
pub mod Available
pub mod Slots
pub mod Operations
pub mod Backend
pub mod Runtime
pub mod Keeps
pub mod Maps
pub mod Restores
pub mod Written
pub mod Untouched
pub mod Entries
pub mod Found
pub mod Shown
pub mod Sane
