-- ===== src/Composer/Device/Presenting.antt =====
-- presentDisplay of Hwc2Device and hwc_post under it.
use hardware_arpi.Composer.Device.{Device}
