-- ===== src/Tx/Laws.antt =====
-- What fits in the members of a transaction.
use graduation_research_prog.Base.{◌<◌, ◌^◌}
use graduation_research_prog.Tx.{Tx}

-- Each member is a pattern of its C type, and the type is one that a `char` can carry.
pub record IsTx (tx : Tx) : Type 0 where
  pub replica_id_fits : tx.replica_id < 2 ^ 16
  pub client_id_fits : tx.client_id < 2 ^ 16
  pub id_fits : tx.id < 2 ^ 16
  pub type_fits : tx.type < 2 ^ 7
  pub key_fits : tx.key < 2 ^ 16
  pub value_fits : tx.value < 2 ^ 16
