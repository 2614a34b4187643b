-- ===== src/Cluster/Steps.antt =====
-- Each step of the cluster keeps what holds of it.
use mathlib.Core.List.{append-nil}
use graduation_research_prog.Base.{
  update, update-each, ℕ, ◌≤◌, ◌≡◌, sym, ◌∙◌, ap, subst, inl, inr, some-injective, get_elem?-append,
  get_elem?-below, some, List, [], ◌∷◌, ◌++◌, length, get_elem?, get_elem?-either, get_elem?-snoc,
  arith,
}
use graduation_research_prog.Bytes.{Buf}
use graduation_research_prog.Tx.{Tx}
use graduation_research_prog.Batch.{Batch}
use graduation_research_prog.Network.{Datagram, Sent}
use graduation_research_prog.Config.{Method, get_port_slave_sequencer}
use graduation_research_prog.Master.{Master}
use graduation_research_prog.Master.Epochs.{Step, length-queue}
use graduation_research_prog.Master.Sender.{Sender, transmit_step}
use graduation_research_prog.Slave.State.{Slave, Env}
use graduation_research_prog.Slave.{startup}
use graduation_research_prog.System.{System, datagram_of_sent}
use graduation_research_prog.System.Agreement.{startup-IsSystem}
use graduation_research_prog.System.Invariant.{
  IsSystem, Agrees, Owed, loaded_datagram, within-IsSystem,
}
use graduation_research_prog.System.Parts.{Grown, Step-Grown, transmit_step-sending}
use graduation_research_prog.System.Steps.{master_step-IsSystem, later-Loaded}
use graduation_research_prog.Cluster.{Cluster, cluster_startup}
use graduation_research_prog.Cluster.Invariant.{view, Logs, IsCluster, update-later}
use graduation_research_prog.Cluster.Routing.{Routed, slave_bound, batch_in, Routed-mono}
use graduation_research_prog.Cluster.Rounds.{Stepped}

pub startup-IsCluster : (raw_set : ℕ → Tx) (buf : Buf) → IsCluster (cluster_startup raw_set buf)
unfolding startup
startup-IsCluster raw_set buf = record {
  part = λ r. startup-IsSystem raw_set buf r;
  logs = λ r e b at below. absurd (omega (arith, below));
  routed = λ i x h. cc;
}

-- the messages on their way, once the slaves have advanced
Routed-later :
    {queue : List Batch} {slaves later : ℕ → Slave} {x : Sent}
    → ((q : ℕ) → (slaves q).next_batch_epoch_id ≤ (later q).next_batch_epoch_id)
    → Routed queue slaves x
    → Routed queue later x
Routed-later {queue} {later} {x} h w =
    subst (λ q. Routed q later x) (append-nil queue) (Routed-mono [] h w)

-- a log that has the batches behind its slave has them of a longer queue
Logs-Grown :
    {m m' : Master} {d d' : ℕ} (s : Slave)
    → Grown m m' d d'
    → s.next_batch_epoch_id ≤ d
    → length m.write_tx_buffer ≡ d
    → Logs m.write_tx_buffer s
    → Logs m'.write_tx_buffer s
Logs-Grown {m} s g within full logs e b at below =
    let (x, there) = get_elem?-below m.write_tx_buffer e (omega (arith, within, full, below)) in
    let same : x ≡ b = some-injective (
      sym (get_elem?-append m.write_tx_buffer g.more e there)
      ∙ ap (λ q. get_elem? q e) (sym g.queue)
      ∙ at) in
    logs e b (there ∙ ap some same) below

pub master_step-IsCluster :
    (c : Cluster) {m : Master} {d : ℕ}
    → IsCluster c
    → Step c.master c.determined m d
    → IsCluster (record c { master = m; determined = d })
master_step-IsCluster c {m} v st =
    let g = Step-Grown st (v.part 0).master in
    record {
      part = λ r. master_step-IsSystem (view c r) (v.part r) st;
      logs = λ r e b at below.
          Logs-Grown (c.slaves r) g (within-IsSystem (view c r) (v.part r))
            (length-queue c.master c.determined (v.part r).master) (v.logs r) e b at below;
      routed = λ i x h.
          subst (λ q. Routed q c.slaves x) (sym g.queue)
            (Routed-mono g.more (λ q. omega arith) (v.routed i x h));
    }

-- one thread of the master has gone on
pub sender-IsCluster :
    (c : Cluster) (r : ℕ) {t : Sender}
    → IsCluster c
    → IsSystem r (record (view c r) { sender = t })
    → IsCluster (record c { senders = update r t c.senders })
sender-IsCluster c r {t} v one = record {
  part =
      update-each (λ q s. IsSystem q (record (view c q) { sender = s })) r t c.senders one v.part;
  logs = v.logs;
  routed = v.routed;
}

pub transmit_step-port :
    (r : ℕ) (s : Sender) (sent : Sent)
    → transmit_step r s ≡ some sent
    → sent.port ≡ get_port_slave_sequencer r
unfolding transmit_step
transmit_step-port r s sent h = ground arith

pub transmit-IsCluster :
    (c : Cluster) (r : ℕ) {sent : Sent}
    → IsCluster c
    → transmit_step r (c.senders r) ≡ some sent
    → IsCluster (record c { net = c.net ++ (sent ∷ []) })
transmit-IsCluster c r {sent} v h =
    let (busy, msg, len) = transmit_step-sending r (c.senders r) sent h in
    let same : loaded_datagram (c.senders r) ≡ datagram_of_sent sent =
      λ i. record { bytes = sym msg i; len = sym len i } in
    let new : Routed c.master.write_tx_buffer c.slaves sent =
      slave_bound r (transmit_step-port r (c.senders r) sent h) (
        batch_in (
          subst (Owed c.master.write_tx_buffer (c.slaves r).next_batch_epoch_id) same
            ((v.part r).loaded busy).0)) in
    record {
      part = v.part;
      logs = v.logs;
      routed = λ i x at. elim (get_elem?-snoc c.net sent x i at) [
        | inl old ↦ v.routed i x old
        | inr (_, e) ↦ subst (Routed c.master.write_tx_buffer c.slaves) e new
      ];
    }

-- the slave has advanced, in agreement with the master
advanced-IsSystem :
    {me : ℕ} (c : System) {t : Slave}
    → IsSystem me c
    → c.slave.next_batch_epoch_id ≤ t.next_batch_epoch_id
    → length t.write_tx_buffer ≡ t.next_batch_epoch_id
    → Agrees c.master t
    → IsSystem me (record c { slave = t; batches = []; acks = [] })
advanced-IsSystem c v later counted agreement = record {
  master = v.master;
  bounded = v.bounded;
  current = v.current;
  loaded = λ busy. later-Loaded c.sender later (v.loaded busy);
  behind = omega (arith, v.behind, later);
  batches = λ i x h. cc;
  acks = λ i x h. cc;
  counted = counted;
  agreement = agreement;
}

pub Stepped-IsCluster :
    {method : Method} {me : ℕ} {env : Env} {d : Datagram} (c : Cluster)
    → IsCluster c
    → (w : Stepped method me env d c.master c.slaves)
    → IsCluster (record c { slaves = update me w.final c.slaves; net = c.net ++ w.sent })
Stepped-IsCluster {me} c v w =
    let later = update-later me w.final c.slaves w.later in
    record {
      part =
          update-each (λ q s. IsSystem q (record (view c q) { slave = s })) me w.final c.slaves
            (advanced-IsSystem (view c me) (v.part me) w.later w.counted w.agreement) v.part;
      logs = update-each (λ q s. Logs c.master.write_tx_buffer s) me w.final c.slaves w.logs v.logs;
      routed = λ i x at. elim (get_elem?-either c.net w.sent x i at) [
        | inl (j, old) ↦ Routed-later later (v.routed j x old)
        | inr (j, new) ↦ w.routed j x new
      ];
    }
