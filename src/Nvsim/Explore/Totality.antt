-- ===== src/Nvsim/Explore/Totality.antt =====
-- The loops over the designs return.
use destiny_3d_cache.Prelude.Outcome.{Outcome}
use destiny_3d_cache.Prelude.Run.{Run}
use destiny_3d_cache.Double.{Double}
use destiny_3d_cache.Bank.{Bank}
use destiny_3d_cache.BankConfig.{BankConfig}
use destiny_3d_cache.InputParameter.{InputParameter}
