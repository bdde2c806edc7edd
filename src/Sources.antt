-- ===== src/Sources.antt =====
-- src/repository/TattooSourceParser.{h,cpp} and TattooSourceScanner.{h,cpp}. The JSON library, the reading of
-- the file and the file system are parameters.
pub mod Json
pub mod Parser
pub mod Scanner
pub mod Scanned
pub mod Fields
pub mod Accepted
pub mod Bounds
