-- ===== src/Memtrack.antt =====
-- libmemtrack/memtrack_rpi.c, whose module has no call but init.
use hardware_arpi.Base.{Bool, not, if◌then◌else◌}
use hardware_arpi.Base.Int.{ℤ, pos, negsuc}

-- Whether there is a module.
unfoldable pub rpi_memtrack_init : Bool → ℤ
rpi_memtrack_init given = if not given then negsuc 0 else pos 0
