-- ===== src/Ospfs.antt =====
-- Lab3: the OSPFS file system module, over the bytes of its disk image.
pub mod Disk
pub mod Bits
pub mod Bitmap
pub mod Index
pub mod Monad
pub mod Grow
pub mod Files
pub mod Names
pub mod Directory
pub mod Readdir
pub mod Attributes
mod Tests
