-- ===== src/Init.antt =====
-- crates/bubbler-init/src: the supervisor inside a sandbox, and the channel over which it takes commands.
pub mod Proto
pub mod Wire
mod Tests
