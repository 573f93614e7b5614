-- ===== src/Disk.antt =====
-- filesystem/filesystem.c, a flat file system in memory. `State` has the structures and the
-- accesses to them, `Alloc` the allocators, `Files` the operations on names and `Transfer` those on
-- bytes; the other children prove.
pub mod State
pub mod Alloc
pub mod Files
pub mod Transfer
pub mod Valid
pub mod Blocks
pub mod Grow
pub mod Write
pub mod Read
pub mod Reserve
pub mod Store
pub mod Lookup
pub mod RoundTrip
pub mod Append
pub mod Extend
pub mod Fill
pub mod Create
pub mod Release
pub mod Delete
pub mod Format
pub mod Refuse
pub mod Session
pub mod Tests
