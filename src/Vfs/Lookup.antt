-- ===== src/Vfs/Lookup.antt =====
-- The lookup of a path finds what following its components finds.
pub mod Resolve
pub mod Steps
pub mod Links
pub mod Components
pub mod Walks
pub mod Found
pub mod Rounds
pub mod Numbers
pub mod Parent
