-- ===== src/Nufs.antt =====
-- The file system of hw10/starter-fshw, a module for each of its files, over the bytes of its image.
pub mod Memory
pub mod Bitmap
pub mod Pages
pub mod Inode
pub mod Slist
pub mod Directory
pub mod Storage
mod Tests
