-- ===== src/Driver.antt =====
-- The host's side of the mailbox protocol: dt100/Linux/Drivers/acq32_core.c.
pub mod Bus
pub mod Send
pub mod Commands
pub mod Gut
pub mod Protocol
pub mod Slaves
pub mod Boards
pub mod Go
pub mod Single
pub mod Fetch
mod Tests
mod BoardTests
