-- ===== src/Cpp.antt =====
-- src/driver/ixgbe.cpp, ixgbe.hpp and device.hpp: the C++ driver, a port of src/driver/ixgbe.c.
--
-- The class keeps what `struct ixy_device` keeps, and the structs of its queues are those of the C
-- driver, field for field, so that the state is the `Machine` of Ixgbe.antt with the layouts of
-- Ixgbe/Rx.antt and Ixgbe/Tx.antt. The member functions are translated on their own.
pub mod Registers
pub mod Rx
pub mod Tx
pub mod Link
pub mod Start
pub mod Init
pub mod New
pub mod Agrees
mod Tests
