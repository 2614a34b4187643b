-- ===== src/Master.antt =====
-- master/master_sequencer.c: the epoch thread of the master, and the batch that all its threads
-- share. The receiving threads are in `Receiver`, the sending threads in `Sender`.
-- A step is what a thread does under one lock, or between two of its reads of a shared variable.
-- The lines that write the CSV log, and the waits for the end of an epoch, are left out.
pub mod Dedup
pub mod Epochs
pub mod Intake
pub mod Receiver
pub mod Sender
pub mod Sending
pub mod Serving
mod Tests
use graduation_research_prog.Base.{
  ℕ, Bool, true, false, if◌then◌else◌, Option, none, some, List, [], ◌∷◌, ◌++◌,
}
use graduation_research_prog.Words.{int_minus_one, int_of_short, int_lt, int_inc, short_of_int}
use graduation_research_prog.Outcome.{Outcome, done, and_then}
use graduation_research_prog.Bytes.{Buf}
use graduation_research_prog.Tx.{Tx}
use graduation_research_prog.Batch.{Batch, max_batch_size, batch_create, batch_add_tx}
use graduation_research_prog.Log.{File, Answers, append_log}
use graduation_research_prog.Message.BatchCodec.{create_batch_msg}

-- What the threads share, and the epoch thread's `batch_msg` and `rev_batch`. `rev_batch` is
-- `none` while no batch is between its replacement and its log record.
pub record Master : Type 0 where
  pub batch : Batch
  pub determined_epoch_id : ℕ
  pub batch_log : Option File
  pub write_tx_buffer : List Batch
  pub batch_msg : Buf
  pub rev_batch : Option Batch

-- what the kernel and the allocator do in one step
pub record Env : Type 0 where
  pub opened : Bool
  pub answers : Answers
  pub stack : Buf
  pub raw_set : ℕ → Tx

-- the master before its first epoch
unfoldable pub master_startup : (ℕ → Tx) → Buf → Master
master_startup raw_set batch_msg = record {
  batch = batch_create raw_set 0;
  determined_epoch_id = int_minus_one;
  batch_log = none;
  write_tx_buffer = [];
  batch_msg = batch_msg;
  rev_batch = none;
}

-- 1 is `true`: the transaction is in the batch. `batch_add_tx` makes the same test again.
unfoldable pub sequencer_add_write_tx_to_batch : Master → Tx → Master × Bool
sequencer_add_write_tx_to_batch m tx =
    let (b, ret) = batch_add_tx m.batch tx in
    if int_lt (int_of_short m.batch.tx_num) max_batch_size
    then (record m { batch = b }, ret)
    else (m, false)

-- at the end of an epoch, under the lock: a new batch takes the place of the current one
unfoldable pub swap_batch : Env → Master → Master
swap_batch env m =
    let current_epoch_id = int_inc m.determined_epoch_id in
    record m {
      rev_batch = some m.batch;
      batch = batch_create env.raw_set (short_of_int (int_inc current_epoch_id));
    }

-- The replaced batch goes to the log,
unfoldable pub log_batch : Env → Batch → Master → Outcome Master
log_batch env b m =
    let (msg, len) = create_batch_msg b m.batch_msg in
    and_then
      (append_log env.opened env.answers env.stack m.batch_log msg len (int_of_short b.epoch_id))
      (λ (f, over). done (record m { batch_log = some f; batch_msg = msg }))

-- then its epoch is determined,
unfoldable pub determine_epoch : Master → Master
determine_epoch m = record m { determined_epoch_id = int_inc m.determined_epoch_id }

-- then it goes to the scheduler.
unfoldable pub queue_batch : Batch → Master → Master
queue_batch b m = record m { write_tx_buffer = m.write_tx_buffer ++ (b ∷ []); rev_batch = none }

-- The three, one after the other. The step relations take them as one step. Of what they change, the
-- receiving threads read nothing, and the sending threads the log and `determined_epoch_id`, but not the queue, which the
-- schedulers alone read. So a sending thread that comes in between finds the master as it is before the
-- step, with the batch already in the log (`Epochs.log_batch_lem`), or as it is behind it.
unfoldable pub confirm_batch : Env → Master → Outcome Master
unfolding log_batch determine_epoch queue_batch
confirm_batch env m = elim m.rev_batch [
  | none ↦ done m
  | some b ↦ and_then (log_batch env b m) (λ logged. done (queue_batch b (determine_epoch logged)))
]
