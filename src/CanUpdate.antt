-- ===== src/CanUpdate.antt =====
-- main/core/firmware_upload/can_fw_update.c: a firmware file made flat, and sent to the TMS board
-- over the CAN bus.
pub mod FlatFile
pub mod Bus
pub mod Frames
pub mod Pages
pub mod Session
pub mod Reassembly
pub mod Overread
pub mod Sent
pub mod Sid
pub mod Transfer
pub mod Image
pub mod Placed
