-- ===== src/Fs.antt =====
-- The file system of fs/.
pub mod State
pub mod Blocks
pub mod Super
pub mod Inode
pub mod Data
pub mod Freeing
pub mod Table
pub mod Words
pub mod Space
pub mod Slots
pub mod Logical
pub mod Placing
pub mod Entries
pub mod Allocating
pub mod Writing
pub mod Bytes
pub mod Files
pub mod Reading
pub mod Persistence
pub mod Removal
pub mod Stored
pub mod Syncing
pub mod Opening
pub mod Maps
pub mod Reopening
pub mod SuperWords
pub mod Formatting
pub mod Directory
pub mod Listing
pub mod Names
