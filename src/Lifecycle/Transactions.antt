-- ===== src/Lifecycle/Transactions.antt =====
-- What WithinTx promises.
use ano_pki_community.Lifecycle.World.{World}
