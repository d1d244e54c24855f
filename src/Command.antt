-- ===== src/Command.antt =====
-- The text commands of the driver, dt100/Linux/Drivers/acq32_command.c. A write to a device file is
-- cut into lines and arguments (Args), and each line goes through a table of decoders, which call
-- the driver and print into the path's read buffer.
pub mod Text
pub mod Types
pub mod Args
pub mod Tables
pub mod Capture
pub mod Dio
pub mod Gut
pub mod Threshold
pub mod Data
pub mod Routes
pub mod Write
mod Tests
pub mod Settings
