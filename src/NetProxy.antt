-- ===== src/NetProxy.antt =====
-- crates/bubbler-net-proxy/src: the proxy that opens tunnels to the hosts that a configuration names.
pub mod Relay
pub mod Allow
pub mod Connect
pub mod Dns
pub mod Resolve
mod Tests
