-- ===== src/BankWithoutHtree/Defined.antt =====
-- A bank without an H-tree, of powers of two, is initialised without undefined behaviour.
use destiny_3d_cache.BankConfig.{BankConfig}
