-- ===== src/ProbeLink.antt =====
-- main/core/firmware_upload/probe_link and probe_link_update.c: the remote protocol of a debug probe,
-- which writes a target over SWD or JTAG.
pub mod Protocol
pub mod Response
pub mod RoundTrip
pub mod Update
pub mod Delivery
pub mod Written
