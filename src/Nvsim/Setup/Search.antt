-- ===== src/Nvsim/Setup/Search.antt =====
-- The search of the configuration that a file sets.
use destiny_3d_cache.Double.{Double}
use destiny_3d_cache.Text.{Text}
use destiny_3d_cache.InputParameter.{InputParameter}
