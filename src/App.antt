-- ===== src/App.antt =====
-- The applications of src/app: the packet generator and the forwarders.
pub mod Pktgen
pub mod Forward
pub mod Example
