-- ===== src/Auth.antt =====
-- Authentication of the devices: forch/simple_auth_state_machine.py and forch/authenticator.py.
pub mod Session
pub mod Sessions
mod Tests
