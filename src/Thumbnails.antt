-- ===== src/Thumbnails.antt =====
-- src/native/NativeThumbnailController.{h,cpp}, NativeThumbnailRuntime.{h,cpp} and
-- D3D11NativeThumbnailSource.{h,cpp}.
pub mod State
pub mod Controller
pub mod Paths
pub mod Served
pub mod Retry
pub mod Places
pub mod History
pub mod Page
pub mod Runtime
pub mod Source
pub mod Reloads
pub mod Reloading
pub mod Tasks
pub mod Draining
pub mod Drained
pub mod Flights
pub mod Lookups
pub mod Landing
pub mod Refused
