-- ===== src/Scheduler/Tests.antt =====
-- Examples of scheduler/write_scheduler.c.
use graduation_research_prog.Base.{
  ℕ, ◌≡◌, refl, sym, ◌∙◌, ap, none, some, [], ◌∷◌, map, get_elem?, arith,
}
use graduation_research_prog.Samples.{tx_of, batch_of}
use graduation_research_prog.Batch.{contents, slice, batch_add_tx, batch_create, put_tx}
use graduation_research_prog.Message.BatchBlocks.{arrived}
use graduation_research_prog.Slave.Delivery.{queued, expected}
use graduation_research_prog.Scheduler.Agreement.{execute_batch-agree}
use graduation_research_prog.Scheduler.{Node, wait_for_exe, execute_txs, execute_batch}
use graduation_research_prog.Scheduler.{execute_batches}
use graduation_research_prog.Scheduler.Threads.{write_scheduler_startup}
use graduation_research_prog.Scheduler.Running.{to_outcome, write_scheduler_startup-executes}
use graduation_research_prog.Scheduler.Convergence.{AllReady, writes, IsReady, execute_txs-writes}

-- client 2 waits
abbrev node : Node
node = record {
  storage = record { storage_size = 6; records = 0 ∷ 0 ∷ 0 ∷ 0 ∷ 5 ∷ 0 ∷ [] };
  waiting = none ∷ none ∷ some (tx_of 3) ∷ [];
}

client-waits : wait_for_exe node 2 ≡ some (tx_of 3)
unfolding wait_for_exe
client-waits = refl

tx-IsReady : (id : ℕ) → IsReady 1 node (tx_of id)
tx-IsReady id = record { key = (omega arith, omega arith); client = λ e. (tx_of 3, client-waits) }

-- two writes of the key 4, whose record is 5
execute_txs-writes_example :
    (n : Node) × (execute_txs 1 0 (tx_of 3 ∷ tx_of 4 ∷ []) node ≡ some n)
    × (get_elem? n.storage.records 4 ≡ some 7)
unfolding writes
execute_txs-writes_example =
    execute_txs-writes 1 0 (tx_of 3 ∷ tx_of 4 ∷ []) node 4 5 (tx-IsReady 3, (tx-IsReady 4, tt))
      (omega arith) refl

contents-batch : contents (batch_of 0) ≡ tx_of 3 ∷ []
unfolding contents slice batch_add_tx batch_create put_tx
contents-batch = refl

batch-queued : queued (batch_of 0) ≡ expected (batch_of 0)
batch-queued =
    ap (λ txs. ((batch_of 0).epoch_id, txs))
      (contents-batch ∙ sym (ap (map arrived) contents-batch))

batch-AllReady : AllReady 1 node (contents (batch_of 0))
batch-AllReady = rw contents-batch (tx-IsReady 3, tt)

-- a node without clients
abbrev other_node : Node
other_node = record node { waiting = [] }

other-AllReady : AllReady 2 other_node (contents (batch_of 0))
other-AllReady =
    rw contents-batch
      (record { key = (omega arith, omega arith); client = λ e. absurd (omega arith) }, tt)

execute_batch-agree_example :
    (m : Node) × (n : Node) × (execute_batch 1 (batch_of 0) 0 node ≡ some m)
    × (execute_batch 2 (batch_of 0) 0 other_node ≡ some n)
    × (get_elem? m.storage.records 4 ≡ get_elem? n.storage.records 4)
execute_batch-agree_example =
    execute_batch-agree 1 2 0 (batch_of 0) (batch_of 0) node other_node 4 5 batch-queued
      batch-AllReady other-AllReady (omega arith) refl refl

-- an empty queue, a batch, then the finish request
write_scheduler_startup-executes_example :
    write_scheduler_startup 1 0 ((0, none) ∷ (0, some (batch_of 0)) ∷ (1, none) ∷ []) node
    ≡ to_outcome (execute_batches 1 0 (batch_of 0 ∷ []) node)
write_scheduler_startup-executes_example =
    write_scheduler_startup-executes 1 0 1 (none ∷ some (batch_of 0) ∷ []) none [] node
      (λ h. absurd (omega (arith, h)))
