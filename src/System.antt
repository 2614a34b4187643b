-- ===== src/System.antt =====
-- The master and one slave together: master/master_sequencer.c and slave/slave_sequencer.c over UDP.
-- A datagram that was ever sent stays in flight, and any of them may arrive, at any time and any
-- number of times: so none needs to arrive, and no order is kept. The slave's messages to the slaves
-- of its region are left out.
pub mod Agreement
pub mod Invariant
pub mod Parts
pub mod Rounds
pub mod Run
pub mod Steps
mod Tests
use graduation_research_prog.Base.{ℕ, ◌≡◌, Option, none, some, List, [], ◌∷◌, ◌++◌, get_elem?, true}
use graduation_research_prog.Outcome.{done}
use graduation_research_prog.Bytes.{Buf}
use graduation_research_prog.Tx.{Tx}
use graduation_research_prog.Network.{Datagram, Sent}
use graduation_research_prog.Config.{Method}
use graduation_research_prog.Log.{Answers, batch_log_size}
use graduation_research_prog.Log.Loops.{Serves}
use graduation_research_prog.Master.{Master, master_startup}
use graduation_research_prog.Master.Epochs.{Step}
use graduation_research_prog.Master.Sender.{
  Sender, sender_startup, begin_step, transmit_step, ack_step,
}
use graduation_research_prog.Slave.State.{Slave, Env}
use graduation_research_prog.Slave.Delivery.{CanLog}
use graduation_research_prog.Slave.{slave_step, startup}

-- The master, with the number of its determined epochs, its thread for the slave, the slave, and the
-- datagrams ever sent from the one to the other and back.
pub record System : Type 0 where
  pub master : Master
  pub determined : ℕ
  pub sender : Sender
  pub slave : Slave
  pub batches : List Datagram
  pub acks : List Datagram

abbrev pub datagram_of_sent : Sent → Datagram
datagram_of_sent s = record { bytes = s.msg; len = s.len }

-- the system before its first step
abbrev pub system_startup : (ℕ → Tx) → Buf → System
system_startup raw_set buf = record {
  master = master_startup raw_set buf;
  determined = 0;
  sender = sender_startup buf buf;
  slave = startup buf buf;
  batches = [];
  acks = [];
}

-- A step of one of the threads. Files can be opened, read and written.
pub data SystemStep (method : Method) (me : ℕ) (c : System) : System → Type 0 where
  master_step :
      {m : Master} {d : ℕ}
      → Step c.master c.determined m d
      → SystemStep method me c (record c { master = m; determined = d })
  begin :
      (answers : Answers) (stack : Buf) {t : Sender}
      → Serves batch_log_size 0 answers
      → begin_step true answers stack c.master.determined_epoch_id c.master.batch_log c.sender
        ≡ done t
      → SystemStep method me c (record c { sender = t })
  transmit :
      {sent : Sent}
      → transmit_step me c.sender ≡ some sent
      → SystemStep method me c (record c { batches = c.batches ++ (datagram_of_sent sent ∷ []) })
  deliver :
      (env : Env) (i : ℕ) {d : Datagram} {t : Slave} {ack : Sent} {rest : List Sent}
      → CanLog env
      → get_elem? c.batches i ≡ some d
      → slave_step method me env (some d) c.slave ≡ done (t, ack ∷ rest)
      → SystemStep method me c
          (record c { slave = t; acks = c.acks ++ (datagram_of_sent ack ∷ []) })
  acknowledged :
      (i : ℕ) {d : Datagram}
      → get_elem? c.acks i ≡ some d
      → SystemStep method me c (record c { sender = ack_step method (some d) c.sender })

pub data SystemReach (method : Method) (me : ℕ) (c : System) : System → Type 0 where
  here : SystemReach method me c c
  more :
      {t u : System}
      → SystemReach method me c t
      → SystemStep method me t u
      → SystemReach method me c u
