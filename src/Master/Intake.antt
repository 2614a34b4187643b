-- ===== src/Master/Intake.antt =====
-- master/master_sequencer.c: the threads that receive the write transactions of the clients, one for each
-- client, together with the epoch thread. They share the current batch. Each step is what one thread
-- does under one lock; a receive finds any datagram, or none.
pub mod Order
pub mod Batches
pub mod Parts
pub mod Threads
mod Tests
use graduation_research_prog.Base.{
  ℕ, suc, ◌<◌, ◌^◌, ◌≡◌, ◌==◌, if◌then◌else◌, true, Option, none, some, List, [], ◌∷◌, ◌++◌, map,
  update,
}
use graduation_research_prog.Outcome.{done}
use graduation_research_prog.Bytes.{Buf}
use graduation_research_prog.Tx.{Tx}
use graduation_research_prog.Batch.{Batch, contents}
use graduation_research_prog.Network.{Datagram}
use graduation_research_prog.Network.Laws.{IsDatagram}
use graduation_research_prog.Log.{batch_log_size}
use graduation_research_prog.Log.Loops.{Serves}
use graduation_research_prog.Master.{
  Master, Env, master_startup, sequencer_add_write_tx_to_batch, swap_batch, confirm_batch,
}
use graduation_research_prog.Master.Receiver.{
  Phase, receiving, adding, stopped, Receiver, receiver_startup, receive_step, add_step,
}

-- The master, with the number of its determined epochs, and its receiving threads.
pub record Intake : Type 0 where
  pub master : Master
  pub determined : ℕ
  pub receivers : ℕ → Receiver

abbrev pub intake_startup : (ℕ → Tx) → Buf → Intake
intake_startup raw_set buf = record {
  master = master_startup raw_set buf;
  determined = 0;
  receivers = λ t. receiver_startup buf buf;
}

-- the transaction that a thread has taken and not yet added
abbrev pub waiting_in : Phase → List Tx
waiting_in receiving = []
waiting_in (adding tx) = tx ∷ []
waiting_in stopped = []

-- transactions, each with the number of its thread
abbrev pub Log : Type 0
Log = List (ℕ × Tx)

abbrev pub by_thread : ℕ → List Tx → Log
by_thread t = map (λ tx. (t, tx))

-- A step of one of the threads, with the transactions that it takes from the network and those that
-- it adds to the batch.
pub data IntakeStep (c : Intake) : Intake → (taken added : Log) → Type 0 where
  swap_step :
      (env : Env)
      → c.master.rev_batch ≡ none
      → suc c.determined < 2 ^ 15
      → IntakeStep c (record c { master = swap_batch env c.master }) [] []
  confirm_step :
      (env : Env) (b : Batch) (m : Master)
      → c.master.rev_batch ≡ some b
      → suc c.determined < 2 ^ 15
      → env.opened ≡ true
      → Serves batch_log_size 0 env.answers
      → confirm_batch env c.master ≡ done m
      → IntakeStep c (record c { master = m; determined = suc c.determined }) [] []
  receive :
      (t : ℕ) (raw : Tx) (event : Option Datagram)
      → IsDatagram event
      → (c.receivers t).phase ≡ receiving
      → IntakeStep c
          (record c { receivers = update t (receive_step raw event (c.receivers t)).0 c.receivers })
          (by_thread t (waiting_in (receive_step raw event (c.receivers t)).0.phase))
          []
  add :
      (t : ℕ) (tx : Tx)
      → (c.receivers t).phase ≡ adding tx
      → IntakeStep c
          (record c {
            master = (add_step tx (c.receivers t) c.master).1;
            receivers = update t (add_step tx (c.receivers t) c.master).0 c.receivers;
          })
          []
          (by_thread t (if (sequencer_add_write_tx_to_batch c.master tx).1 then tx ∷ [] else []))

pub data IntakeReach (c : Intake) : Intake → (taken added : Log) → Type 0 where
  here : IntakeReach c c [] []
  more :
      {t u : Intake} {xs ys new put : Log}
      → IntakeReach c t xs ys
      → IntakeStep t u new put
      → IntakeReach c u (xs ++ new) (ys ++ put)

-- the batches of the master, the determined ones first: the one that is being logged, and the current
abbrev pub one_of : Option Batch → List Batch
one_of none = []
one_of (some b) = b ∷ []

abbrev pub batches_of : Master → List Batch
batches_of m = m.write_tx_buffer ++ (one_of m.rev_batch ++ (m.batch ∷ []))

abbrev pub all_contents : List Batch → List Tx
all_contents [] = []
all_contents (b ∷ bs) = contents b ++ all_contents bs

-- those of one thread
abbrev pub of_thread : ℕ → Log → List Tx
of_thread t [] = []
of_thread t ((q, tx) ∷ rest) = if t == q then tx ∷ of_thread t rest else of_thread t rest
