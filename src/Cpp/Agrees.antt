-- ===== src/Cpp/Agrees.antt =====
-- The C++ driver, src/driver/ixgbe.cpp, and the C driver, src/driver/ixgbe.c, where they agree.
pub mod Packets
pub mod Control
