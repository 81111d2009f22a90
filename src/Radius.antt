-- ===== src/Radius.antt =====
-- RADIUS messages: forch/radius_datatypes.py, forch/radius_attributes.py and forch/radius.py.
-- Bytes are numbers below 256.
pub mod Datatypes
pub mod Attributes
pub mod Packet
pub mod Client
mod Tests
