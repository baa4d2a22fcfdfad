-- ===== src/Init/Tests.antt =====
-- Concrete requests on the exec channel.
mod Proto
mod Wire
