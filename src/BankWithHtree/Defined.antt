-- ===== src/BankWithHtree/Defined.antt =====
-- A bank with an H-tree of powers of two is initialised without undefined behaviour.
use destiny_3d_cache.Prelude.Outcome.{Outcome}
use destiny_3d_cache.BankConfig.{BankConfig}
