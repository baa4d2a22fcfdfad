-- ===== src/Core/Tests.antt =====
-- Concrete rules and programs.
mod Machine
mod DbusMessage
mod DbusSession
mod DbusWire
mod Seccomp
