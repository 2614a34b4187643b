-- ===== src/Cluster.antt =====
-- The master and all slaves together: master/master_sequencer.c, with one sending thread for each
-- slave, and slave/slave_sequencer.c of every slave, with the messages between slaves of a region.
-- All threads share one list of what was ever sent. A socket receives, at any time and any number of
-- times, whatever was sent to its port; so nothing needs to arrive, and no order is kept.
pub mod Agreement
pub mod Convergence
pub mod Invariant
pub mod Progress
pub mod Routing
pub mod Recovery
pub mod Replicas
pub mod Rounds
pub mod Steps
mod Tests
use graduation_research_prog.Base.{
  update, ℕ, ◌≡◌, ◌==◌, if◌then◌else◌, true, some, List, [], ◌∷◌, ◌++◌, get_elem?,
}
use graduation_research_prog.Outcome.{done}
use graduation_research_prog.Bytes.{Buf}
use graduation_research_prog.Tx.{Tx}
use graduation_research_prog.Network.{Sent}
use graduation_research_prog.Config.{
  Method, get_port_master_sequencer_from_slave_sequencer, get_port_slave_sequencer,
}
use graduation_research_prog.Log.{Answers, batch_log_size}
use graduation_research_prog.Log.Loops.{Serves}
use graduation_research_prog.Master.{Master, master_startup}
use graduation_research_prog.Master.Epochs.{Step}
use graduation_research_prog.Master.Sender.{
  Sender, sender_startup, begin_step, transmit_step, ack_step,
}
use graduation_research_prog.Slave.State.{Slave, Env}
use graduation_research_prog.Slave.Delivery.{CanLog}
use graduation_research_prog.Slave.{slave_step, startup}
use graduation_research_prog.System.{datagram_of_sent}

-- The master, with the number of its determined epochs, its thread for each slave, the slaves, and
-- what was ever sent.
pub record Cluster : Type 0 where
  pub master : Master
  pub determined : ℕ
  pub senders : ℕ → Sender
  pub slaves : ℕ → Slave
  pub net : List Sent

-- the cluster before its first step
abbrev pub cluster_startup : (ℕ → Tx) → Buf → Cluster
cluster_startup raw_set buf = record {
  master = master_startup raw_set buf;
  determined = 0;
  senders = λ r. sender_startup buf buf;
  slaves = λ r. startup buf buf;
  net = [];
}

-- A step of one of the threads; `r` is the slave, or the one that the thread of the master is for.
-- Files can be opened, read and written.
pub data ClusterStep (method : Method) (c : Cluster) : Cluster → Type 0 where
  master_step :
      {m : Master} {d : ℕ}
      → Step c.master c.determined m d
      → ClusterStep method c (record c { master = m; determined = d })
  begin :
      (r : ℕ) (answers : Answers) (stack : Buf) {t : Sender}
      → Serves batch_log_size 0 answers
      → begin_step true answers stack c.master.determined_epoch_id c.master.batch_log (c.senders r)
        ≡ done t
      → ClusterStep method c (record c { senders = update r t c.senders })
  transmit :
      (r : ℕ) {sent : Sent}
      → transmit_step r (c.senders r) ≡ some sent
      → ClusterStep method c (record c { net = c.net ++ (sent ∷ []) })
  deliver :
      (r : ℕ) (env : Env) (i : ℕ) {p : ℕ} {x : Sent} {t : Slave} {sent : List Sent}
      → CanLog env
      → get_elem? c.net i ≡ some x
      → get_port_slave_sequencer r ≡ some p
      → x.port ≡ some p
      → slave_step method r env (some (datagram_of_sent x)) (c.slaves r) ≡ done (t, sent)
      → ClusterStep method c (record c { slaves = update r t c.slaves; net = c.net ++ sent })
  acknowledged :
      (r i : ℕ) {p : ℕ} {x : Sent}
      → get_elem? c.net i ≡ some x
      → get_port_master_sequencer_from_slave_sequencer r ≡ some p
      → x.port ≡ some p
      → ClusterStep method c (record c {
        senders = update r (ack_step method (some (datagram_of_sent x)) (c.senders r)) c.senders;
      })

pub data ClusterReach (method : Method) (c : Cluster) : Cluster → Type 0 where
  here : ClusterReach method c c
  more :
      {t u : Cluster} → ClusterReach method c t → ClusterStep method t u → ClusterReach method c u
