-- ===== src/Mirror.antt =====
-- Package mirror/: the names that it accepts, the rewriting of module paths and of whole trees, the
-- publication of a tag, and the check that a module can be fetched.
pub mod Names
pub mod Rewrite
pub mod Tree
pub mod GoMod
pub mod Materialize
pub mod Host
pub mod Compare
pub mod Publish
pub mod Verify
pub mod Tests
