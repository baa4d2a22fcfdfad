-- ===== src/WlProxy/Tests.antt =====
-- Concrete runs of the Wayland proxy, and its theorems at concrete inputs.
mod Wire
mod Objects
mod Policy
