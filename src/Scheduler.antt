-- ===== src/Scheduler.antt =====
-- scheduler/write_scheduler.c and scheduler/read_scheduler.c: the threads that execute the batches
-- and the reads of a node. The `printf` of each executed transaction is left out.
-- `waiting` is `db_client_info_set`: for each client of this node the transaction that its
-- `wait_for_exe` points to, `none` for a pointer that was never set. The pointed-to transaction is
-- the one of the client's thread, so what is written here is what that thread sees.
pub mod Agreement
pub mod Convergence
pub mod Queue
pub mod Running
pub mod Threads
mod Tests
use graduation_research_prog.Base.{
  ℕ, ◌==◌, ltb, if◌then◌else◌, Option, none, some, List, [], ◌∷◌, get_elem?, set,
}
use graduation_research_prog.Words.{int_of_short, int_inc, short_of_int}
use graduation_research_prog.Tx.{Tx, set_assigned_epoch_id_to_tx, raise_tx_complete_flag}
use graduation_research_prog.Batch.{Batch, contents}
use graduation_research_prog.Storage.{Storage, read_from_storage, write_to_storage}

pub record Node : Type 0 where
  pub storage : Storage
  pub waiting : List (Option Tx)

abbrev pub bind {ℓ κ} : {A : Type ℓ} {B : Type κ} → Option A → (A → Option B) → Option B
bind none k = none
bind (some a) k = k a

-- the transaction of a client: `none` outside the array, and for a pointer that was never set
unfoldable pub wait_for_exe : Node → ℕ → Option Tx
wait_for_exe n client_id =
    bind (if ltb client_id 0x8000 then get_elem? n.waiting client_id else none) (λ p. p)

-- the client's transaction is told its epoch and that it is complete
unfoldable pub notify : Node → (client_id epoch_id : ℕ) → Option Node
unfolding wait_for_exe set_assigned_epoch_id_to_tx raise_tx_complete_flag
notify n client_id epoch_id = bind (wait_for_exe n client_id) (λ tx. some (record n {
  waiting =
      set n.waiting client_id
        (some (raise_tx_complete_flag (set_assigned_epoch_id_to_tx tx epoch_id)));
}))

-- One round of the loop of `execute_batch`. `none` is an access outside an array, or through a
-- pointer that was never set.
unfoldable pub execute_tx : (my_replica_id epoch_id : ℕ) → Tx → Node → Option Node
unfolding notify
execute_tx my_replica_id epoch_id tx n =
    bind (write_to_storage n.storage tx.key tx.value) (λ storage.
      let written = record n { storage = storage } in
      if int_of_short tx.replica_id == my_replica_id
      then notify written tx.client_id epoch_id
      else some written)

unfoldable pub execute_txs : (my_replica_id epoch_id : ℕ) → List Tx → Node → Option Node
execute_txs my_replica_id epoch_id [] n = some n
execute_txs my_replica_id epoch_id (tx ∷ txs) n =
    bind (execute_tx my_replica_id epoch_id tx n) (execute_txs my_replica_id epoch_id txs)

unfoldable pub execute_batch : (my_replica_id : ℕ) → Batch → (epoch_id : ℕ) → Node → Option Node
unfolding execute_txs
execute_batch my_replica_id b epoch_id n = execute_txs my_replica_id epoch_id (contents b) n

-- What `write_scheduler_startup` is to do with a queue, without its loop and its test for the end, which are in
-- `Threads`: each batch is executed under the next number, which is passed as a `short`. The result is
-- the node and the number of the next batch.
unfoldable pub execute_batches : (my_replica_id epoch : ℕ) → List Batch → Node → Option (Node × ℕ)
unfolding execute_batch
execute_batches my_replica_id epoch [] n = some (n, epoch)
execute_batches my_replica_id epoch (b ∷ batches) n =
    bind (execute_batch my_replica_id b (short_of_int epoch) n)
      (execute_batches my_replica_id (int_inc epoch) batches)

-- `execute_read_tx`: what is read is stored as a `short`
unfoldable pub execute_read_tx : Storage → Tx → Option Tx
unfolding raise_tx_complete_flag
execute_read_tx s tx =
    bind (read_from_storage s tx.key)
      (λ value. some (raise_tx_complete_flag (record tx { value = short_of_int value })))
