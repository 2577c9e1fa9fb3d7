-- ===== src/Tests.antt =====
-- Runs over small surroundings, and the theorems at concrete inputs.
mod Worlds
mod Basics
mod Docker
mod Sessions
mod Server
mod Runs
mod Presets
mod Splunk
mod Messages
mod Commands
mod Processes
mod Starts
