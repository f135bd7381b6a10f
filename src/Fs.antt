-- ===== src/Fs.antt =====
-- fs.c: the blocks of the disk, inodes and their contents, directories and paths.
pub mod Blocks
pub mod Bits
pub mod Alloc
pub mod FreeMap
pub mod Inode
pub mod Kept
pub mod Entries
pub mod Mapping
pub mod Dinode
pub mod Icache
pub mod Paths
pub mod Dirs
pub mod OnDisk
pub mod Elements
pub mod Cached
mod Tests
