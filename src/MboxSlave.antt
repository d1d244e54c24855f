-- ===== src/MboxSlave.antt =====
-- ARM/d-bug/mbox-slave.c: the slave's side of the mailbox protocol.
pub mod Types
pub mod Idle
pub mod Report
pub mod Handlers
pub mod Process
pub mod Incoming
pub mod Loop
pub mod Tests
