-- ===== src/Lib.antt =====
-- The graphics HALs of the Raspberry Pi's Android port: the allocator library on libgbm, the mapper
-- service on top of it, and the hardware composer from the client's commands down to the kernel's mode
-- setting; and the audio HAL, which stands by itself.
--
-- The parts and where they are modelled:
--   Platform         what the sources take from the platform's headers: error numbers, pixel formats,
--                    usage bits, and C's integer conversions.
--   Gralloc          graphics/common/gbm_gralloc.cpp and drm_handle.h. The state is the map from
--                    handles to buffer objects, the objects alive, and the lock data of each object.
--     Devices        gbm_init, gbm_destroy, and the services' constructors and destructors
--     Format         get_gbm_format, gralloc_gbm_get_bpp, get_pipe_bind
--     Buffers        gbm_import, gbm_alloc, gbm_free, gbm_register, gbm_unregister
--     Lock           gbm_map, gbm_unmap, gbm_lock, gbm_unlock
--     Ycbcr          gbm_lock_ycbcr
--     Calls          every sequence of those calls: locks (Calls), owners (Safety), leaks (Leaks)
--     Module         gralloc/gralloc_rpi.cpp and gralloc/gbm_module.cpp, the older interface
--   Allocator        graphics/allocator/aidl/Allocator.cpp. It calls Gralloc for each buffer.
--   Mapper           graphics/mapper/4.0. It calls Gralloc and keeps no state of its own.
--     PlaneLayouts   get_plane_layouts
--     Calls          createDescriptor, importBuffer, freeBuffer, lock, unlock, flushLockedBuffer
--     Metadata       get, set, and the other calls that tell about buffers
--     Fence          the Fence class
--   Composer         graphics/composer/aidl. A command of a client goes from the engine to the HAL, to
--                    the device, to the kernel.
--     Service        Composer: one client at a time
--     Client         ComposerClient: sessions, the callbacks of the HAL, the calls that answer;
--                    Callbacks goes from a client's calls to the vsync thread
--     Resources      impl/ResourceManager.cpp and impl/TranslateHwcAidl.h, on a library
--     Engine         ComposerCommandEngine: execute and its handlers; Whole has the commands with
--                    all fields, Fences the acquire fences of the commands
--     Hal            ComposerHal
--     Device         Hwc2Device: layers, validation state, presentation; Calls has its traces
--     Vsync          Hwc2Device's vsync thread: the times of its loop, its sleep on the kernel's
--                    clock (Sleeping), and its start and stop
--     Modes          hwc_context: find_mode and generate_mode
--     Kms            hwc_context: its start, with connectors, CRTCs and planes; FirstFrame goes on to
--                    the first post
--     MethodName     Util.h: the names of methods in traces
--     Post           hwc_context: hwc_post, add_fb, atomic_commit
--   Audio            audio/audio_hw.c: the output and the input stream, and the device
--   Memtrack         libmemtrack/memtrack_rpi.c
--   Examples         the definitions and theorems at concrete inputs.
--
-- Code that is not in the repository is an argument of the definitions that call it: libgbm (the
-- functions that create, import and map buffer objects), libdrm (the records Drm and Kms), libsync,
-- the kernel's clock (Nanosleep), libcutils and gralloc4 (the arguments of the mapper's calls),
-- sscanf (the record Scanner), C's floating-point arithmetic (the record Floats), tinyalsa and the
-- sizes of sound formats (the arguments of the streams), and the composer's resources (the record
-- ComposerResources, which ResourceManager forwards to and whose promises LayerLaws states). The
-- calls on the writer of replies are kept as a list.
--
-- A pointer is a number, 0 for null; reading through a null lock record is the outcome `faults`.
-- The 32-bit products and alignments wrap as they do in C; a lock count does not wrap. The loop of
-- sleepUntil runs on fuel, of which one unit for each sleep is enough; every other loop of the
-- modelled code runs over a list. Waiting for a fence blocks and changes no state. Of descriptors,
-- those of the acquire fences of commands and those of libgbm's devices are counted.
--
-- Not modelled: callbacks that only forward to the framework, the entry points of the services, and
-- division by a sample rate or a frame size of 0 in the audio HAL.
pub mod Base
pub mod Platform
pub mod Gralloc
pub mod Allocator
pub mod Audio
pub mod Memtrack
pub mod Mapper
pub mod Composer
pub mod Examples
