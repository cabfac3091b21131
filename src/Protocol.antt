-- ===== src/Protocol.antt =====
-- libsric/sric.c and sricd/ipc.c together: what one writes the other reads.
pub mod Stream
pub mod Sending
pub mod Polling
pub mod Flags
pub mod Listing
pub mod Devices
