-- ===== src/Cluster/Agreement.antt =====
-- All slaves agree with the master, and recover from each other what they miss.
use graduation_research_prog.Base.{
  update, ℕ, ◌<◌, ◌≤◌, ◌^◌, ◌≡◌, ◌≢◌, refl, sym, ◌∙◌, ap, subst, ap₂, length-map, some, List, [],
  ◌∷◌, ◌++◌, map, length, get_elem?, arith,
}
use graduation_research_prog.Outcome.{done, done-injective}
use graduation_research_prog.Bytes.{Buf}
use graduation_research_prog.Tx.{Tx}
use graduation_research_prog.Network.{Datagram, Sent}
use graduation_research_prog.Config.{
  Method, tcp_method, get_port_slave_sequencer, get_port_master_sequencer_from_slave_sequencer,
}
use graduation_research_prog.Slave.State.{Slave, Env}
use graduation_research_prog.Slave.Delivery.{queued, expected}
use graduation_research_prog.Slave.{slave_step}
use graduation_research_prog.System.{datagram_of_sent}
use graduation_research_prog.System.Invariant.{loaded_datagram, within-IsSystem}
use graduation_research_prog.System.Parts.{begin_step-Begun, transmit_step-sending}
use graduation_research_prog.Batch.{Batch}
use graduation_research_prog.Message.InFlight.{Carries}
use graduation_research_prog.Master.Sender.{transmit_step}
use graduation_research_prog.System.Steps.{begin-IsSystem, acknowledged-IsSystem}
use graduation_research_prog.Cluster.{
  Cluster, ClusterStep, ClusterReach, cluster_startup, master_step, begin, transmit, deliver,
  acknowledged, here, more,
}
use graduation_research_prog.Cluster.Invariant.{view, IsCluster}
use graduation_research_prog.Cluster.Routing.{Routed-slave, Routed-master}
use graduation_research_prog.Cluster.Steps.{
  startup-IsCluster, master_step-IsCluster, sender-IsCluster, transmit-IsCluster,
  transmit_step-port, Stepped-IsCluster,
}
use graduation_research_prog.Cluster.Rounds.{Stepped, Inbound-Stepped}

-- The ids of the slaves fit a `short`.
ack_port-small : (r p : ℕ) → get_port_master_sequencer_from_slave_sequencer r ≡ some p → r < 2 ^ 15
unfolding get_port_master_sequencer_from_slave_sequencer
ack_port-small r p h = ground arith

pub slave_port-small : (r p : ℕ) → get_port_slave_sequencer r ≡ some p → r < 2 ^ 15
unfolding get_port_slave_sequencer
slave_port-small r p h = ground arith

-- The round that has ended is the one that was foreseen.
Stepped-eq :
    {method : Method} {me : ℕ} {env : Env} {d : Datagram} {t : Slave} {sent : List Sent}
    (c : Cluster)
    → slave_step method me env (some d) (c.slaves me) ≡ done (t, sent)
    → (w : Stepped method me env d c.master c.slaves) → (w.final ≡ t) × (w.sent ≡ sent)
Stepped-eq c runs w =
    let same = done-injective (sym w.runs ∙ runs) in
    (ap (λ (r : Slave × List Sent). r.0) same, ap (λ (r : Slave × List Sent). r.1) same)

-- Of two prefixes of one list, the shorter is a prefix of the longer.
prefixes :
    {A : Type 0} (xs ys us vs : List A)
    → xs ++ us ≡ ys ++ vs
    → length xs ≤ length ys
    → (rest : List A) × (ys ≡ xs ++ rest)
prefixes [] ys us vs e h = (ys, refl)
prefixes (x ∷ xs) [] us vs e h = absurd (omega (arith, h))
prefixes (x ∷ xs) (y ∷ ys) us vs e h =
    let tails : xs ++ us ≡ ys ++ vs = cc in
    let first : y ≡ x = cc in
    let shorter : length xs ≤ length ys = omega (arith, h) in
    let (rest, same) = prefixes xs ys us vs tails shorter in (rest, ap₂ (λ a b. a ∷ b) first same)

module _ (method : Method) (udp : method ≢ tcp_method) where
  pub ClusterStep-IsCluster :
      {c c' : Cluster} → ClusterStep method c c' → IsCluster c → IsCluster c'
  ClusterStep-IsCluster {c} (master_step st) v = master_step-IsCluster c v st
  ClusterStep-IsCluster {c} (begin r answers stack {t} serves runs) v =
      let w = v.part r in
      let within = within-IsSystem (view c r) w in
      sender-IsCluster c r v (
        begin-IsSystem (view c r) w (
          begin_step-Begun c.master c.determined answers stack (c.senders r) t w.master w.bounded
            (omega (arith, w.behind, w.bounded, within)) serves runs))
  ClusterStep-IsCluster {c} (transmit r h) v = transmit-IsCluster c r v h
  ClusterStep-IsCluster {c} (deliver r env i {p} {x} {t} {sent} can at port to runs) v =
      let w =
        Inbound-Stepped method udp c v r (slave_port-small r p port) env can (datagram_of_sent x)
          (Routed-slave r p port to (v.routed i x at)) in
      let (final, same) = Stepped-eq c runs w in
      subst (λ s. IsCluster (record c { slaves = update r s c.slaves; net = c.net ++ sent })) final
        (subst (λ l. IsCluster (record c { slaves = update r w.final c.slaves; net = c.net ++ l }))
          same (Stepped-IsCluster c v w))
  ClusterStep-IsCluster {c} (acknowledged r i {p} {x} at port to) v = sender-IsCluster c r v (
      acknowledged-IsSystem method (view c r) (datagram_of_sent x) (ack_port-small r p port)
        (v.part r) (Routed-master r p port to (v.routed i x at)))

  pub ClusterReach-IsCluster :
      {c c' : Cluster} → ClusterReach method c c' → IsCluster c → IsCluster c'
  ClusterReach-IsCluster here v = v
  ClusterReach-IsCluster (more r st) v = ClusterStep-IsCluster st (ClusterReach-IsCluster r v)

  pub reached-IsCluster :
      (raw_set : ℕ → Tx) (buf : Buf) {c : Cluster}
      → ClusterReach method (cluster_startup raw_set buf) c
      → IsCluster c
  reached-IsCluster raw_set buf r = ClusterReach-IsCluster r (startup-IsCluster raw_set buf)

  -- A master and its slaves, of either UDP method, from their start through any steps, of epochs below
  -- 2 ^ 15 and with files that can be read and written, whatever the network loses, doubles or reorders
  -- and whatever the slaves ask of each other: the queue of each slave, decoded batches with their
  -- epochs, is a prefix of the master's, as long as the slave's next epoch says; the slave is not ahead
  -- of the determined epochs, nor the master's thread for the slave ahead of it; and of two slaves'
  -- queues the shorter is a prefix of the longer.
  pub all_agree :
      (raw_set : ℕ → Tx) (buf : Buf) (c : Cluster) (r s : ℕ)
      → ClusterReach method (cluster_startup raw_set buf) c
      → (c.slaves r).next_batch_epoch_id ≤ (c.slaves s).next_batch_epoch_id
      → ((rest : List (ℕ × List Tx)) × (map expected c.master.write_tx_buffer
            ≡ map queued (c.slaves r).write_tx_buffer ++ rest))
        × (length (c.slaves r).write_tx_buffer ≡ (c.slaves r).next_batch_epoch_id)
        × ((c.slaves r).next_batch_epoch_id ≤ c.determined)
        × ((c.senders r).next_epoch_id ≤ (c.slaves r).next_batch_epoch_id)
        × ((rest : List (ℕ × List Tx)) × (map queued (c.slaves s).write_tx_buffer
              ≡ map queued (c.slaves r).write_tx_buffer ++ rest))
  all_agree raw_set buf c r s reach h =
      let v = reached-IsCluster raw_set buf reach in
      let one = v.part r in
      let other = v.part s in
      let (us, e) = one.agreement in
      let (vs, f) = other.agreement in
      (
        one.agreement,
        one.counted,
        within-IsSystem (view c r) one,
        one.behind,
        prefixes (map queued (c.slaves r).write_tx_buffer) (map queued (c.slaves s).write_tx_buffer)
            us vs (sym e ∙ f)
            (omega (
              arith,
              h,
              one.counted,
              other.counted,
              length-map queued (c.slaves r).write_tx_buffer,
              length-map queued (c.slaves s).write_tx_buffer,
            )),
      )

  -- A master and its slaves, of either UDP method, from their start through any steps, of epochs below
  -- 2 ^ 15 and with files that can be read and written, and whatever a sending thread of the master sends
  -- next: it carries the very batch that the master has determined for the thread's next epoch, in all that a slave reads of it, and is for
  -- the port of the thread's slave, which has every batch before.
  pub sender_carries :
      (raw_set : ℕ → Tx) (buf : Buf) (c : Cluster) (r : ℕ) (sent : Sent)
      → ClusterReach method (cluster_startup raw_set buf) c
      → transmit_step r (c.senders r) ≡ some sent
      → (b : Batch) × (get_elem? c.master.write_tx_buffer (c.senders r).next_epoch_id ≡ some b)
        × (b.epoch_id ≡ (c.senders r).next_epoch_id)
        × Carries (datagram_of_sent sent) b
        × (sent.port ≡ get_port_slave_sequencer r)
        × ((c.senders r).next_epoch_id ≤ (c.slaves r).next_batch_epoch_id)
  sender_carries raw_set buf c r sent reach h =
      let v = (reached-IsCluster raw_set buf reach).part r in
      let (busy, msg, len) = transmit_step-sending r (c.senders r) sent h in
      let (o, same) = v.loaded busy in
      let epoch : o.epoch ≡ (c.senders r).next_epoch_id = same ∙ v.current busy in
      let out : loaded_datagram (c.senders r) ≡ datagram_of_sent sent =
        λ i. record { bytes = sym msg i; len = sym len i } in
      (
        o.batch,
        subst (λ e. get_elem? c.master.write_tx_buffer e ≡ some o.batch) epoch o.at,
        o.named ∙ epoch,
        subst (λ d. Carries d o.batch) out o.carries,
        transmit_step-port r (c.senders r) sent h,
        v.behind,
      )
