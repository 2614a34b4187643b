-- ===== src/Cluster/Progress.antt =====
-- The master can always bring a slave up to date: from any state of the cluster, whatever was lost.
use graduation_research_prog.Base.{
  update, update-each, update_self, ℕ, suc, ◌+◌, ◌-◌, ◌<◌, ◌≤◌, ◌^◌, ◌≡◌, ◌≢◌, refl, ◌∙◌, ap, inl,
  inr, Bool-cases, true, if◌then◌else◌, some, [], ◌∷◌, ◌++◌, length, zero, get_elem?-bound,
  get_elem?-last, get_elem?-after, arith,
}
use graduation_research_prog.Network.{Datagram, Sent}
use graduation_research_prog.Config.{
  Method, proposed_method, conventional_method, tcp_method, get_port_slave_sequencer,
  get_port_master_sequencer_from_slave_sequencer, get_sequencer_ipaddr,
}
use graduation_research_prog.Master.Epochs.{length-queue}
use graduation_research_prog.Master.Sender.{Sender, transmit_step, ack_step}
use graduation_research_prog.Master.Sending.{ends, ack_step-create_ack}
use graduation_research_prog.Master.Serving.{loaded, begin_step-Carries}
use graduation_research_prog.Slave.State.{Env}
use graduation_research_prog.Slave.Delivery.{CanLog}
use graduation_research_prog.System.{datagram_of_sent}
use graduation_research_prog.System.Invariant.{Acked, within-IsSystem}
use graduation_research_prog.System.Rounds.{deliver-Delivered}
use graduation_research_prog.Cluster.{
  Cluster, ClusterReach, begin, transmit, deliver, acknowledged, here, more,
}
use graduation_research_prog.Cluster.Invariant.{view, IsCluster}
use graduation_research_prog.Cluster.Agreement.{slave_port-small, ClusterReach-IsCluster}

transmit_step-busy :
    (r : ℕ) (s : Sender)
    → s.sending ≡ true
    → transmit_step r s
      ≡ some (record {
        ipaddr = get_sequencer_ipaddr r;
        port = get_port_slave_sequencer r;
        msg = s.send_msg;
        len = s.send_msg_len;
      })
unfolding transmit_step
transmit_step-busy r s h = simp h

ends_same : (method : Method) (e : ℕ) → method ≢ tcp_method → ends method e e ≡ true
ends_same proposed_method e udp = ground arith
ends_same conventional_method e udp = ground arith
ends_same tcp_method e udp = absurd (udp refl)

-- The ACK of the very epoch that is being sent ends the sending.
ack_step-current :
    (method : Method) (me due : ℕ) (d : Datagram) (s : Sender)
    → method ≢ tcp_method
    → me < 2 ^ 15
    → s.next_epoch_id < 2 ^ 15
    → s.sending ≡ true
    → s.send_epoch_id ≡ s.next_epoch_id
    → (a : Acked me due d) → a.epoch ≡ s.next_epoch_id
    → (ack_step method (some d) s).next_epoch_id ≡ suc s.next_epoch_id
ack_step-current method me due d s udp h small busy current a same =
    let (_, moves) =
      ack_step-create_ack method me a.epoch a.buffer s h (omega (arith, same)) busy current
        (omega arith) in
    ap (λ x. (ack_step method (some x) s).next_epoch_id) a.made
    ∙ moves
    ∙ ap (λ e. if ends method e s.next_epoch_id then suc e else s.next_epoch_id) same
    ∙ ap (λ b. if b then suc s.next_epoch_id else s.next_epoch_id)
        (ends_same method s.next_epoch_id udp)

-- `c` is reached from `c0`; on the way the master has determined nothing, and no sending thread has gone back.
pub record From (method : Method) (c0 c : Cluster) : Type 0 where
  pub reach : ClusterReach method c0 c
  pub same_master : c.master ≡ c0.master
  pub same_determined : c.determined ≡ c0.determined
  pub ahead : (q : ℕ) → (c0.senders q).next_epoch_id ≤ (c.senders q).next_epoch_id

-- One thread has gone on, and so none has gone back.
update-ahead :
    (r : ℕ) (t : Sender) (senders : ℕ → Sender)
    → (senders r).next_epoch_id ≤ t.next_epoch_id
    → (q : ℕ) → (senders q).next_epoch_id ≤ (update r t senders q).next_epoch_id
update-ahead r t senders h =
    update-each (λ q (s : Sender). (senders q).next_epoch_id ≤ s.next_epoch_id) r t senders h
      (λ q. omega arith)

module _ (method : Method) (udp : method ≢ tcp_method) (c0 : Cluster) (v0 : IsCluster c0)
    (r p k : ℕ) (rp : get_port_slave_sequencer r ≡ some p)
    (rk : get_port_master_sequencer_from_slave_sequencer r ≡ some k) (env : Env)
    (can : CanLog env) where
  -- An idle thread loads the batch of the next epoch, when that is determined.
  loads :
      (c : Cluster)
      → From method c0 c
      → (c.senders r).next_epoch_id < c.determined
      → (t : Cluster) × From method c0 t
        × ((t.senders r).sending ≡ true)
        × ((t.senders r).next_epoch_id ≡ (c.senders r).next_epoch_id)
  loads c w due = elim (Bool-cases (c.senders r).sending) [
    | inl busy ↦ (c, w, busy, refl)
    | inr idle ↦
        let v = (ClusterReach-IsCluster method udp w.reach v0).part r in
        let (_, out, _, _, _, begins, _, _) =
          begin_step-Carries c.master c.determined r env.answers env.stack (c.senders r) v.master
            v.bounded idle due can.serves in
        (
          _,
          record {
            reach = more w.reach (begin r env.answers env.stack can.serves begins);
            same_master = w.same_master;
            same_determined = w.same_determined;
            ahead = λ q. omega (
              arith,
              w.ahead q,
              update-ahead r (loaded (c.senders r) out) c.senders (omega arith) q,
            );
          },
          ap (λ (s : Sender). s.sending) (update_self r _ c.senders),
          ap (λ (s : Sender). s.next_epoch_id) (update_self r _ c.senders),
        )
  ]

  -- The batch is sent and arrives, its ACK arrives, and the thread goes on to the next epoch.
  completes :
      (c : Cluster)
      → From method c0 c
      → (c.senders r).sending ≡ true
      → (t : Cluster) × From method c0 t
        × ((t.senders r).next_epoch_id ≡ suc (c.senders r).next_epoch_id)
  completes c w busy =
      let s = c.senders r in
      let v = (ClusterReach-IsCluster method udp w.reach v0).part r in
      let (o, epoch) = v.loaded busy in
      let x : Sent = record {
        ipaddr = get_sequencer_ipaddr r;
        port = get_port_slave_sequencer r;
        msg = s.send_msg;
        len = s.send_msg_len;
      } in
      let net = c.net ++ (x ∷ []) in
      let round = deliver-Delivered method r udp (view c r) v env (datagram_of_sent x) can o in
      let next : (ack_step method (some (datagram_of_sent round.ack)) s).next_epoch_id
          ≡ suc s.next_epoch_id =
        ack_step-current method r round.final.next_batch_epoch_id (datagram_of_sent round.ack) s udp
          (slave_port-small r p rp)
          (omega (
            arith,
            epoch,
            v.current busy,
            get_elem?-bound c.master.write_tx_buffer o.epoch o.at,
            length-queue c.master c.determined v.master,
            v.bounded,
          ))
          busy (v.current busy) round.acked.0 (round.acked.1 ∙ epoch ∙ v.current busy) in
      (
        _,
        record {
          reach =
              more
                (more (more w.reach (transmit r (transmit_step-busy r s busy)))
                  (deliver r env (length c.net) can (get_elem?-last c.net x) rp rp round.runs))
                (acknowledged r (length net) (get_elem?-after net round.ack round.others) rk
                  (round.port ∙ rk));
          same_master = w.same_master;
          same_determined = w.same_determined;
          ahead = λ q. omega (
            arith,
            w.ahead q,
            update-ahead r (ack_step method (some (datagram_of_sent round.ack)) s) c.senders
                (omega (arith, next)) q,
          );
        },
        ap (λ (s : Sender). s.next_epoch_id) (update_self r _ c.senders) ∙ next,
      )

  -- The thread goes through all epochs that are determined.
  catches_up :
      (left : ℕ) (c : Cluster)
      → From method c0 c
      → (c.senders r).next_epoch_id + left ≡ c.determined
      → (t : Cluster) × From method c0 t × ((t.senders r).next_epoch_id ≡ t.determined)
  catches_up zero c w h = (c, w, omega (arith, h))
  catches_up (suc left) c w h =
      let (a, wa, busy, same) = loads c w (omega (arith, h)) in
      let (b, wb, next) = completes a wa busy in
      catches_up left b wb
        (omega (arith, h, same, next, wa.same_determined, wb.same_determined, w.same_determined))

  -- From the start, all of them.
  pub brought_up : (t : Cluster) × From method c0 t × ((t.senders r).next_epoch_id ≡ c0.determined)
  brought_up =
      let start : From method c0 c0 = record {
        reach = here;
        same_master = refl;
        same_determined = refl;
        ahead = λ q. omega arith;
      } in
      let within = within-IsSystem (view c0 r) (v0.part r) in
      let (t, w, all) =
        catches_up (c0.determined - (c0.senders r).next_epoch_id) c0 start
          (omega (arith, within, (v0.part r).behind)) in
      (t, w, all ∙ w.same_determined)
