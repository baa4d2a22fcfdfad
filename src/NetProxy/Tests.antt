-- ===== src/NetProxy/Tests.antt =====
-- Concrete runs of the network proxy's parts.
mod Allow
mod Connect
mod Dns
mod Relay
