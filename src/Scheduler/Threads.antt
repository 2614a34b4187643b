-- ===== src/Scheduler/Threads.antt =====
-- The loops of scheduler/write_scheduler.c and scheduler/read_scheduler.c. A look is what one test of the
-- loop reads of `system_finish_request`, and what the queue then gives, if anything.
use graduation_research_prog.Base.{ℕ, ◌==◌, if◌then◌else◌, Option, none, some, List, [], ◌∷◌}
use graduation_research_prog.Words.{int_inc, short_of_int}
use graduation_research_prog.Outcome.{Outcome, done, abort, waiting, and_then}
use graduation_research_prog.Tx.{Tx}
use graduation_research_prog.Batch.{Batch}
use graduation_research_prog.Storage.{Storage}
use graduation_research_prog.Scheduler.{Node, execute_batch, execute_read_tx}

-- Which batches the thread executes until a look that ends it; `abort` is an access outside an array,
-- or through a pointer that was never set.
unfoldable pub write_scheduler_startup :
    (my_replica_id epoch : ℕ) → List (ℕ × Option Batch) → Node → Outcome (Node × ℕ)
write_scheduler_startup my_replica_id epoch [] n = waiting
write_scheduler_startup my_replica_id epoch ((request, none) ∷ looks) n =
    let rest = write_scheduler_startup my_replica_id epoch looks n in
    if request == 0 then rest else done (n, epoch)
write_scheduler_startup my_replica_id epoch ((request, some b) ∷ looks) n =
    if request == 0
    then elim (execute_batch my_replica_id b (short_of_int epoch) n) [
      | none ↦ abort
      | some n' ↦ write_scheduler_startup my_replica_id (int_inc epoch) looks n'
    ]
    else done (n, epoch)

-- The transactions that the thread has read, in order; each is the one of its client's thread.
unfoldable pub read_scheduler_startup : Storage → List (ℕ × Option Tx) → Outcome (List Tx)
read_scheduler_startup storage [] = waiting
read_scheduler_startup storage ((request, none) ∷ looks) =
    let rest = read_scheduler_startup storage looks in if request == 0 then rest else done []
read_scheduler_startup storage ((request, some tx) ∷ looks) =
    let rest = read_scheduler_startup storage looks in
    if request == 0
    then elim (execute_read_tx storage tx) [
      | none ↦ abort
      | some executed ↦ and_then rest (λ txs. done (executed ∷ txs))
    ]
    else done []
