-- ===== src/KvServer/Tests.antt =====
-- A concrete store, a concrete codec, a concrete server, and the theorems at it.
mod Instances
mod Examples
mod SkipLists
