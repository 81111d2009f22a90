-- ===== src/Port.antt =====
-- The testing states of the access ports: forch/port_state_manager.py.
pub mod Types
pub mod Table
pub mod State
pub mod Machine
pub mod Manager
pub mod Placement
pub mod Faults
pub mod Inputs
mod Tests
