-- ===== src/Cluster/Recovery.antt =====
-- How a slave gets the next batch from another slave, when the master's message is lost.
use graduation_research_prog.Base.{
  ℕ, suc, ◌<◌, ◌≤◌, ◌^◌, ◌≡◌, ◌≢◌, sym, ◌∙◌, ap, some, List, [], ◌∷◌, ◌++◌, map, length, get_elem?,
  get_elem?-last, update, update_self, update_other, arith,
}
use graduation_research_prog.Outcome.{done}
use graduation_research_prog.Bytes.{Buf}
use graduation_research_prog.Tx.{Tx}
use graduation_research_prog.Batch.{Batch}
use graduation_research_prog.Network.{Sent}
use graduation_research_prog.Config.{
  proposed_method, tcp_method, get_port_slave_sequencer, get_within_region_slave_ipaddr,
}
use graduation_research_prog.Message.{create_ack_batch_msg, create_request_batch_msg}
use graduation_research_prog.Message.InFlight.{Carries}
use graduation_research_prog.Log.{batch_log_size}
use graduation_research_prog.Master.Serving.{queued-IsMaster}
use graduation_research_prog.Slave.State.{Slave, Env}
use graduation_research_prog.Slave.Actions.{to_slave}
use graduation_research_prog.Slave.Delivery.{queued, expected, CanLog, step-fresh}
use graduation_research_prog.Slave.Exchange.{step-asks, step-serves}
use graduation_research_prog.Slave.{slave_step}
use graduation_research_prog.System.{datagram_of_sent}
use graduation_research_prog.System.Invariant.{within-IsSystem}
use graduation_research_prog.Cluster.{Cluster, ClusterReach, cluster_startup, deliver, here, more}
use graduation_research_prog.Cluster.Invariant.{view}
use graduation_research_prog.Cluster.Agreement.{slave_port-small, reached-IsCluster}

-- what is for the slave `id`, at its address and its port in the region
abbrev pub for_slave : ℕ → Buf × ℕ → Sent
for_slave id (msg, len) = record {
  ipaddr = get_within_region_slave_ipaddr id;
  port = get_port_slave_sequencer id;
  msg = msg;
  len = len;
}

-- the request of slave `r` to slave `q` for the next batch
abbrev pub request_to : ℕ → ℕ → Slave → Sent
request_to q r s = for_slave q (create_request_batch_msg r s.next_batch_epoch_id s.send_msg)

-- Three rounds, of `r`, `q` and `r` again. In the first `r` hears of `heard` and asks `q` for its next
-- batch; in the second `q` answers `r` with a datagram that carries that batch of the master, and keeps its
-- queue and its next epoch; in the third `r` queues it behind what it has. The three lead from `c` to a cluster in which the two
-- slaves and the messages that they have sent alone are new.
pub record Recovered (c : Cluster) (env : Env) (r q : ℕ) (heard : Sent) : Type 0 where
  pub asking : Slave
  pub serving : Slave
  pub taking : Slave
  pub answer : Buf
  pub acks : List Sent
  pub batch : Batch
  pub asks :
      slave_step proposed_method r env (some (datagram_of_sent heard)) (c.slaves r)
      ≡ done (asking, request_to q r (c.slaves r) ∷ [])
  pub serves :
      slave_step proposed_method q env
        (some (datagram_of_sent (request_to q r (c.slaves r))))
        (c.slaves q)
      ≡ done (serving, for_slave r (answer, batch_log_size) ∷ [])
  pub takes :
      slave_step proposed_method r env
        (some (datagram_of_sent (for_slave r (answer, batch_log_size))))
        asking
      ≡ done (taking, acks)
  pub is_next : get_elem? c.master.write_tx_buffer (c.slaves r).next_batch_epoch_id ≡ some batch
  pub carried : Carries (datagram_of_sent (for_slave r (answer, batch_log_size))) batch
  pub same_queue : serving.write_tx_buffer ≡ (c.slaves q).write_tx_buffer
  pub same_epoch : serving.next_batch_epoch_id ≡ (c.slaves q).next_batch_epoch_id
  pub further : taking.next_batch_epoch_id ≡ suc (c.slaves r).next_batch_epoch_id
  pub queue :
      map queued taking.write_tx_buffer
      ≡ map queued (c.slaves r).write_tx_buffer ++ (expected batch ∷ [])
  pub steps : ClusterReach proposed_method c (record c {
    slaves = update r taking (update q serving (update r asking c.slaves));
    net =
        ((c.net ++ (request_to q r (c.slaves r) ∷ []))
          ++ (for_slave r (answer, batch_log_size) ∷ []))
        ++ acks;
  })

not_tcp : proposed_method ≢ tcp_method
not_tcp h = cc

-- Three rounds that fit are three steps of the cluster.
three_steps :
    (c : Cluster) (env : Env) (r q p k i : ℕ) (x y z : Sent) (asking serving taking : Slave)
    (acks : List Sent)
    → CanLog env
    → q ≢ r
    → get_port_slave_sequencer r ≡ some p
    → get_port_slave_sequencer q ≡ some k
    → get_elem? c.net i ≡ some x
    → x.port ≡ some p
    → y.port ≡ some k
    → z.port ≡ some p
    → slave_step proposed_method r env (some (datagram_of_sent x)) (c.slaves r)
      ≡ done (asking, y ∷ [])
    → slave_step proposed_method q env (some (datagram_of_sent y)) (c.slaves q)
      ≡ done (serving, z ∷ [])
    → slave_step proposed_method r env (some (datagram_of_sent z)) asking ≡ done (taking, acks)
    → ClusterReach proposed_method c (record c {
      slaves = update r taking (update q serving (update r asking c.slaves));
      net = ((c.net ++ (y ∷ [])) ++ (z ∷ [])) ++ acks;
    })
three_steps c env r q p k i x y z asking serving taking acks can ne rp qp at xp yp zp first second
      third =
    let still : update r asking c.slaves q ≡ c.slaves q = update_other q r asking c.slaves ne in
    let own : update q serving (update r asking c.slaves) r ≡ asking =
      update_other r q serving (update r asking c.slaves) (λ e. ne (sym e))
      ∙ update_self r asking c.slaves in
    more
      (more (more here (deliver r env i can at rp xp first)) (
        deliver q env (length c.net) can (get_elem?-last c.net y) qp yp
          (ap (slave_step proposed_method q env (some (datagram_of_sent y))) still ∙ second)))
      (deliver r env (length (c.net ++ (y ∷ []))) can (get_elem?-last (c.net ++ (y ∷ [])) z) rp zp
        (ap (slave_step proposed_method r env (some (datagram_of_sent z))) own ∙ third))

-- A master and its slaves in the proposed method, from their start through any steps, of epochs below
-- 2 ^ 15: the slave `r` is behind the slave `q`, and an ACK of `q`, of an epoch that is not behind `r`,
-- was sent to `r`. Then three rounds of the two slaves, in which their logs can be read and written,
-- bring `r` its next batch, without the master: `r`, which hears the ACK, asks `q` at its address and port
-- for the batch of its next epoch; `q` answers `r` with one datagram, which carries the batch that the
-- master has determined for it, and keeps its queue and its next epoch; and `r` queues it, decoded, behind what it has, and goes on to the epoch behind.
-- These are steps of the cluster, each round with the message of the one before, and leave the
-- master, its threads and the other slaves as they were.
pub recovery :
    (raw_set : ℕ → Tx) (buf : Buf) (c : Cluster) (env : Env) (r q p k i epoch : ℕ) (buffer : Buf)
    → ClusterReach proposed_method (cluster_startup raw_set buf) c
    → CanLog env
    → get_port_slave_sequencer r ≡ some p
    → get_port_slave_sequencer q ≡ some k
    → (c.slaves r).next_batch_epoch_id < (c.slaves q).next_batch_epoch_id
    → (c.slaves r).next_batch_epoch_id ≤ epoch
    → epoch < 2 ^ 15
    → get_elem? c.net i ≡ some (for_slave r (create_ack_batch_msg q epoch buffer))
    → Recovered c env r q (for_slave r (create_ack_batch_msg q epoch buffer))
unfolding to_slave
recovery raw_set buf c env r q p k i epoch buffer reach can rp qp behind reached small at =
    let n = (c.slaves r).next_batch_epoch_id in
    let v = reached-IsCluster proposed_method not_tcp raw_set buf reach in
    let within = within-IsSystem (view c q) (v.part q) in
    let bounded = (v.part q).bounded in
    let (b, there, named, sound, _) =
      queued-IsMaster c.master c.determined n (v.part q).master (omega (arith, behind, within)) in
    let (asking, first, u) =
      step-asks r env (c.slaves r) q epoch buffer (slave_port-small q k qp) small reached in
    let (serving, out, second, w, carries) =
      step-serves q env (c.slaves q) r n (c.slaves r).send_msg (slave_port-small r p rp)
        (omega (arith, behind, within, bounded)) b can sound.size (v.logs q n b there behind) in
    let (taking, rest, third, moved, queue, _, _, _) =
      step-fresh proposed_method not_tcp r env asking (record { bytes = out; len = batch_log_size })
        b carries sound (named ∙ sym u.same_next)
        (omega (arith, u.same_next, behind, within, bounded)) can in
    record {
      asking = asking;
      serving = serving;
      taking = taking;
      answer = out;
      acks = _;
      batch = b;
      asks = first;
      serves = second;
      takes = third;
      is_next = there;
      carried = carries;
      same_queue = w.same_queue;
      same_epoch = w.same_next;
      further = moved ∙ ap suc u.same_next;
      queue = queue ∙ ap (λ l. map queued l ++ (expected b ∷ [])) u.same_queue;
      steps =
          three_steps c env r q p k i (for_slave r (create_ack_batch_msg q epoch buffer))
            (request_to q r (c.slaves r)) (for_slave r (out, batch_log_size)) asking serving taking
            _ can (λ e. distinct (ap (λ s. (c.slaves s).next_batch_epoch_id) e)) rp qp at rp qp rp
            first second third;
    }
  where
    distinct : (c.slaves q).next_batch_epoch_id ≡ (c.slaves r).next_batch_epoch_id → ⊥
    distinct e = absurd (omega (arith, behind, e))
