-- ===== src/Composer.antt =====
-- graphics/composer/aidl: the hardware composer service, from the calls of the framework down to the
-- kernel's mode setting.
pub mod Error
pub mod Post
pub mod Device
pub mod Hal
pub mod Engine
pub mod Resources
pub mod Client
pub mod Modes
pub mod Kms
pub mod Service
pub mod Vsync
pub mod MethodName
