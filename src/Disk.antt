-- ===== src/Disk.antt =====
-- internal/disk: the decompression of disk images and the check of their digests.
pub mod Sparse
pub mod Decompress
pub mod Digest
pub mod Images
