-- ===== src/Cluster/Routing.antt =====
-- What the datagrams say that are on their way, and to whom.
use graduation_research_prog.Base.{ℕ, ◌<◌, ◌≤◌, ◌^◌, ◌≡◌, sym, ◌∙◌, subst, some, List, ◌++◌, arith}
use graduation_research_prog.Bytes.{Buf}
use graduation_research_prog.Batch.{Batch}
use graduation_research_prog.Network.{Sent, Datagram}
use graduation_research_prog.Config.{
  get_port_master_sequencer_from_slave_sequencer, get_port_slave_sequencer,
}
use graduation_research_prog.Config.Ports.{slave_port_injective, ack_port_injective}
use graduation_research_prog.Message.{create_request_batch_msg}
use graduation_research_prog.Slave.State.{Slave}
use graduation_research_prog.System.{datagram_of_sent}
use graduation_research_prog.System.Invariant.{Owed, Acked, Owed-mono, Acked-mono}

-- A request of slave `q` for the batch of an epoch that the slave asked has, and that `q` may have
-- got in the meantime.
pub record Asked (q due has : ℕ) (d : Datagram) : Type 0 where
  pub epoch : ℕ
  pub buffer : Buf
  pub made : d ≡ record {
    bytes = (create_request_batch_msg q epoch buffer).0;
    len = (create_request_batch_msg q epoch buffer).1;
  }
  pub answerable : epoch < has
  pub reached : epoch ≤ due

-- A datagram to the slave `r`.
pub data Inbound (queue : List Batch) (slaves : ℕ → Slave) (r : ℕ) (d : Datagram) : Type 0 where
  batch_in : Owed queue (slaves r).next_batch_epoch_id d → Inbound queue slaves r d
  ack_in :
      (q : ℕ) → q < 2 ^ 15 → Acked q (slaves q).next_batch_epoch_id d → Inbound queue slaves r d
  request_in :
      (q : ℕ)
      → q < 2 ^ 15
      → Asked q (slaves q).next_batch_epoch_id (slaves r).next_batch_epoch_id d
      → Inbound queue slaves r d

-- Whatever is sent is for one slave, or acknowledges to the master.
pub data Routed (queue : List Batch) (slaves : ℕ → Slave) (x : Sent) : Type 0 where
  slave_bound :
      (r : ℕ)
      → x.port ≡ get_port_slave_sequencer r
      → Inbound queue slaves r (datagram_of_sent x)
      → Routed queue slaves x
  master_bound :
      (r : ℕ)
      → x.port ≡ get_port_master_sequencer_from_slave_sequencer r
      → Acked r (slaves r).next_batch_epoch_id (datagram_of_sent x)
      → Routed queue slaves x

Asked-mono :
    {q due due' has has' : ℕ} {d : Datagram}
    → due ≤ due'
    → has ≤ has'
    → Asked q due has d
    → Asked q due' has' d
Asked-mono h k a = record {
  epoch = a.epoch;
  buffer = a.buffer;
  made = a.made;
  answerable = omega (arith, a.answerable);
  reached = omega (arith, a.reached);
}

Inbound-mono :
    {queue : List Batch} {slaves later : ℕ → Slave} {r : ℕ} {d : Datagram} (more : List Batch)
    → ((q : ℕ) → (slaves q).next_batch_epoch_id ≤ (later q).next_batch_epoch_id)
    → Inbound queue slaves r d
    → Inbound (queue ++ more) later r d
Inbound-mono {r} more h (batch_in o) = batch_in (Owed-mono more (h r) o)
Inbound-mono more h (ack_in q small a) = ack_in q small (Acked-mono (h q) a)
Inbound-mono {r} more h (request_in q small a) = request_in q small (Asked-mono (h q) (h r) a)

-- What was sent stays true as the queue grows and the slaves advance.
pub Routed-mono :
    {queue : List Batch} {slaves later : ℕ → Slave} {x : Sent} (more : List Batch)
    → ((q : ℕ) → (slaves q).next_batch_epoch_id ≤ (later q).next_batch_epoch_id)
    → Routed queue slaves x
    → Routed (queue ++ more) later x
Routed-mono more h (slave_bound r port i) = slave_bound r port (Inbound-mono more h i)
Routed-mono more h (master_bound r port a) = master_bound r port (Acked-mono (h r) a)

-- No slave's port is one of the master's.
slave_port-ack_port :
    (r s p : ℕ)
    → get_port_slave_sequencer r ≡ some p
    → get_port_master_sequencer_from_slave_sequencer s ≡ some p
    → ⊥
unfolding get_port_slave_sequencer get_port_master_sequencer_from_slave_sequencer
slave_port-ack_port r s p e f = ground arith

-- A slave gets what is for it, and a thread of the master the ACKs of its slave.
pub Routed-slave :
    {queue : List Batch} {slaves : ℕ → Slave} {x : Sent} (r p : ℕ)
    → get_port_slave_sequencer r ≡ some p
    → x.port ≡ some p
    → Routed queue slaves x
    → Inbound queue slaves r (datagram_of_sent x)
Routed-slave {queue} {slaves} {x} r p here e (slave_bound s port i) =
    subst (λ q. Inbound queue slaves q (datagram_of_sent x))
      (slave_port_injective s r p (sym port ∙ e) here) i
Routed-slave r p here e (master_bound s port a) =
    absurd (slave_port-ack_port r s p here (sym port ∙ e))

pub Routed-master :
    {queue : List Batch} {slaves : ℕ → Slave} {x : Sent} (r p : ℕ)
    → get_port_master_sequencer_from_slave_sequencer r ≡ some p
    → x.port ≡ some p
    → Routed queue slaves x
    → Acked r (slaves r).next_batch_epoch_id (datagram_of_sent x)
Routed-master r p here e (slave_bound s port i) =
    absurd (slave_port-ack_port s r p (sym port ∙ e) here)
Routed-master {slaves} {x} r p here e (master_bound s port a) =
    subst (λ q. Acked q (slaves q).next_batch_epoch_id (datagram_of_sent x))
      (ack_port_injective s r p (sym port ∙ e) here) a
