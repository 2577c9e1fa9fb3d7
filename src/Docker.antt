-- ===== src/Docker.antt =====
-- docker.go: the client of the docker engine.
pub mod Client
pub mod Conflict
pub mod Images
pub mod Network
pub mod Create
pub mod Start
