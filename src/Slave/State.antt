-- ===== src/Slave/State.antt =====
-- slave/slave_sequencer.c: what the receiving thread of a slave keeps, and what it is given.
use graduation_research_prog.Base.{ℕ, Bool, Option, List}
use graduation_research_prog.Bytes.{Buf}
use graduation_research_prog.Tx.{Tx}
use graduation_research_prog.Batch.{Batch}
use graduation_research_prog.Log.{File, Answers}

-- The local variables of the thread and the parts of `Config` that it shares with others:
-- `batch_log`, the log file, and `write_tx_buffer`, the queue of batches, oldest first.
pub record Slave : Type 0 where
  pub next_batch_epoch_id : ℕ
  pub recv_msg : Buf
  pub send_msg : Buf
  pub batch_log : Option File
  pub write_tx_buffer : List Batch

-- What the kernel and the allocator do in one round: whether `open` succeeds, what the calls of
-- `write` or `read` return, what stands on the stack and in memory that `malloc` returns.
pub record Env : Type 0 where
  pub opened : Bool
  pub answers : Answers
  pub stack : Buf
  pub raw_tx : Tx
  pub raw_set : ℕ → Tx
