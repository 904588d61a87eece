-- ===== src/Nvsim/Setup.antt =====
-- main.cpp: the configuration with which `main` starts.
pub mod Bounds
pub mod Search
pub mod Node
use destiny_3d_cache.Prelude.{Option}
use destiny_3d_cache.Prelude.Run.{Run}
use destiny_3d_cache.Double.{Double}
use destiny_3d_cache.Text.{Text}
use destiny_3d_cache.InputParameter.{InputParameter}
use destiny_3d_cache.InputParameter.New.{new_parameter}
use destiny_3d_cache.InputParameter.Read.{read_parameter}
use destiny_3d_cache.Search.Size.{restore_search_size}

module _ {D : Type 0} ⦃d : Double D⦄ where
  -- A new object with the bounds of `RESTORE_SEARCH_SIZE`, before the file is read.
  unfoldable pub start_parameter : InputParameter D → InputParameter D
  start_parameter memory = restore_search_size (new_parameter memory)

  unfoldable pub setup : (Text → Option D) → Option Text → InputParameter D → Run (InputParameter D)
  setup strtod file memory = read_parameter strtod file (start_parameter memory)
