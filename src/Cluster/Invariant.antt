-- ===== src/Cluster/Invariant.antt =====
-- What holds of the whole cluster: for each slave what holds of a master with one slave, the logs of
-- the slaves, and the datagrams on their way.
use graduation_research_prog.Base.{
  update, update-each, ℕ, ◌<◌, ◌≤◌, ◌≡◌, some, List, [], get_elem?, arith,
}
use graduation_research_prog.Batch.{Batch}
use graduation_research_prog.Network.{Sent}
use graduation_research_prog.Slave.State.{Slave}
use graduation_research_prog.Message.InFlight.{Recorded}
use graduation_research_prog.System.{System}
use graduation_research_prog.System.Invariant.{IsSystem}
use graduation_research_prog.Cluster.{Cluster}
use graduation_research_prog.Cluster.Routing.{Routed}

-- The part of the cluster that concerns the slave `r`.
abbrev pub view : Cluster → ℕ → System
view c r = record {
  master = c.master;
  determined = c.determined;
  sender = c.senders r;
  slave = c.slaves r;
  batches = [];
  acks = [];
}

-- The log of the slave has every batch of the queue that is behind the slave.
abbrev pub Logs : List Batch → Slave → Type 0
Logs queue s =
    (e : ℕ) (b : Batch)
    → get_elem? queue e ≡ some b
    → e < s.next_batch_epoch_id
    → Recorded s.batch_log e b

pub record IsCluster (c : Cluster) : Type 0 where
  pub part : (r : ℕ) → IsSystem r (view c r)
  pub logs : (r : ℕ) → Logs c.master.write_tx_buffer (c.slaves r)
  pub routed :
      (i : ℕ) (x : Sent) → get_elem? c.net i ≡ some x → Routed c.master.write_tx_buffer c.slaves x

-- One slave has advanced, and so none has gone back.
pub update-later :
    (r : ℕ) (t : Slave) (slaves : ℕ → Slave)
    → (slaves r).next_batch_epoch_id ≤ t.next_batch_epoch_id
    → (q : ℕ) → (slaves q).next_batch_epoch_id ≤ (update r t slaves q).next_batch_epoch_id
update-later r t slaves h =
    update-each (λ q (s : Slave). (slaves q).next_batch_epoch_id ≤ s.next_batch_epoch_id) r t slaves
      h (λ q. omega arith)
