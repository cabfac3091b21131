-- ===== src/Libsric.antt =====
-- libsric/sric.c and libsric/sric.h: the library by which programs talk to the daemon.
pub mod Core
pub mod Transfer
pub mod Notes
pub mod Devices
pub mod Retry
