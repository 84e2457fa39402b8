-- ===== src/Controller.antt =====
-- src/controller/: the process that owns virtual time and the table of processes.
pub mod TimeManager
pub mod Slots
pub mod Server
pub mod Contract
pub mod Main
mod Tests
