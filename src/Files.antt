-- ===== src/Files.antt =====
-- The paths of documents and of the media library (agent/content.go and agent/library.go).
pub mod Docs
pub mod Split
pub mod Names
pub mod Library
pub mod Source
pub mod Upload
pub mod Confined
pub mod Safe
