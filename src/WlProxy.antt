-- ===== src/WlProxy.antt =====
-- crates/bubbler-wl-proxy/src: the Wayland proxy in front of the compositor's socket.
pub mod Tables
pub mod Wire
pub mod Objects
pub mod Audit
pub mod Privileged
pub mod Policy
mod Tests
