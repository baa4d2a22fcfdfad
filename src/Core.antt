-- ===== src/Core.antt =====
-- crates/bubbler-core/src: what a sandbox is launched with.
pub mod DbusWire
pub mod Seccomp
pub mod Personality
mod Tests
