-- ===== src/Mapper.antt =====
-- graphics/mapper/4.0: the IMapper service, on top of gbm_gralloc.
pub mod PlaneLayouts
pub mod Calls
pub mod Metadata
pub mod Fence
