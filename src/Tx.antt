-- ===== src/Tx.antt =====
-- tx/transaction.h and tx/transaction.c: a transaction and the functions that fill it in.
-- Each function takes the pointed-to `Tx` and returns its new value. `create_tx` and `free_tx`
-- differ from `init_tx` and from nothing only by `malloc` and `free`.
pub mod Laws
use graduation_research_prog.Base.{ℕ, Bool, ◌==◌}
use graduation_research_prog.Words.{short_minus_one}

-- `enum transaction_type`, an `int` in the record
abbrev pub read_only : ℕ
read_only = 0

abbrev pub write_only : ℕ
write_only = 1

abbrev pub error : ℕ
error = 2

abbrev pub finish_request : ℕ
finish_request = 3

pub record Tx : Type 0 where
  pub replica_id : ℕ
  pub client_id : ℕ
  pub id : ℕ
  pub type : ℕ
  pub key : ℕ
  pub value : ℕ
  pub assigned_epoch_id : ℕ
  pub complete_flag : ℕ

-- every field is written, whatever stood there
unfoldable pub init_tx : Tx → Tx
init_tx tx = record tx {
  replica_id = short_minus_one;
  client_id = short_minus_one;
  id = short_minus_one;
  type = error;
  key = short_minus_one;
  value = short_minus_one;
  assigned_epoch_id = short_minus_one;
  complete_flag = 0;
}

-- what `malloc` returns is not initialised: `raw` is whatever stands there
unfoldable pub create_tx : Tx → Tx
unfolding init_tx
create_tx raw = init_tx raw

unfoldable pub modify_to_write_tx : Tx → ℕ → ℕ → Tx
modify_to_write_tx tx key value = record tx {
  type = write_only;
  key = key;
  value = value;
  complete_flag = 0;
}

unfoldable pub modify_to_read_tx : Tx → ℕ → Tx
modify_to_read_tx tx key = record tx {
  type = read_only;
  key = key;
  value = short_minus_one;
  complete_flag = 0;
}

unfoldable pub set_assigned_epoch_id_to_tx : Tx → ℕ → Tx
set_assigned_epoch_id_to_tx tx epoch = record tx { assigned_epoch_id = epoch }

unfoldable pub set_client_info_to_tx : Tx → ℕ → ℕ → ℕ → Tx
set_client_info_to_tx tx client_replica_id client_id tx_id = record tx {
  replica_id = client_replica_id;
  client_id = client_id;
  id = tx_id;
}

unfoldable pub raise_tx_complete_flag : Tx → Tx
raise_tx_complete_flag tx = record tx { complete_flag = 1 }

-- `memset` to 0, then one assignment for each member
unfoldable pub tx_cpy : Tx → Tx → Tx
tx_cpy dst src = record dst {
  replica_id = src.replica_id;
  client_id = src.client_id;
  id = src.id;
  type = src.type;
  key = src.key;
  value = src.value;
  assigned_epoch_id = src.assigned_epoch_id;
  complete_flag = src.complete_flag;
}

unfoldable pub modify_finish_request : Tx → Tx
unfolding init_tx
modify_finish_request tx = record (init_tx tx) { type = finish_request }
