-- ===== src/Gralloc.antt =====
-- graphics/common/gbm_gralloc.cpp: buffer objects behind handles, in the library that the allocator,
-- the mapper and the gralloc module share.
pub mod Format
pub mod Devices
pub mod Buffers
pub mod Lock
pub mod Calls
pub mod Ycbcr
pub mod Module
