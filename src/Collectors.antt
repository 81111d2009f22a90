-- ===== src/Collectors.antt =====
-- The collectors of the states of the host and of the nodes around it.
pub mod States
pub mod Cpn
pub mod Vrrp
pub mod Processes
