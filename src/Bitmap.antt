-- ===== src/Bitmap.antt =====
-- The bitmaps of fs/bitmap.c.
pub mod Words
pub mod Bits
pub mod Store
pub mod Marks
pub mod Single
pub mod Alloc
pub mod Create
pub mod Wrap
