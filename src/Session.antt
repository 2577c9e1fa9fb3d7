-- ===== src/Session.antt =====
-- gnomock.go: starting and stopping containers.
pub mod Image
pub mod Stop
pub mod Wait
pub mod Create
pub mod Sidecar
