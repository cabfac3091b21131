-- ===== src/SricIf.antt =====
-- sricd/sric-if.c: the serial interface.
pub mod Init
pub mod Serial
pub mod Ready
pub mod Receive
pub mod Transmit
pub mod Link
