-- ===== src/Fsck.antt =====
-- The file system checker of File System Checker/xfsck.c, whose `main` is cut into the steps of its
-- loops. The image is the memory from `img_ptr` on: what a read behind the end of the mapping finds
-- is not determined. Freeing, closing and the printed text do not change a result and are left out.
pub mod Image
pub mod Check
pub mod Blocks
pub mod Walk
pub mod Dirs
pub mod Main
pub mod Sound
pub mod LinkCounts
pub mod Bitmap
mod Tests
mod WalkTests
