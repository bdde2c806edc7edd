-- ===== src/Tests.antt =====
-- The theorems at concrete inputs, and runs of the definitions that can be followed in the source.
mod Samples
mod Service
mod Adapter
mod Framework
mod Appearance
mod Driver
mod Workflow
mod Catalog
mod Thumbnails
mod Source
mod Textures
mod SlaveTats
mod Sources
mod Scan
mod Hotkey
