-- ===== src/Cluster/Rounds.antt =====
-- The round of a slave with whatever is on its way to it.
use graduation_research_prog.Base.{
  update, update_self, some-injective, get_elem?-cons, Bool, ℕ, zero, suc, not, ◌&&◌, ◌==◌,
  if◌then◌else◌, Bool-cases, inl, inr, ◌+◌, ◌-◌, ◌<◌, ◌≤◌, ◌^◌, ◌≡◌, ◌≢◌, refl, sym, ◌∙◌, ap, subst,
  some, List, ◌∷◌, map, length, get_elem?, ◌++◌, arith,
}
use graduation_research_prog.Outcome.{done}
use graduation_research_prog.Bytes.{Buf}
use graduation_research_prog.Network.{Datagram, Sent}
use graduation_research_prog.Config.{
  Method, tcp_method, proposed_method, conventional_method, get_region,
}
use graduation_research_prog.Config.Constants.{replica_num}
use graduation_research_prog.System.{datagram_of_sent}
use graduation_research_prog.Master.{Master}
use graduation_research_prog.Master.Serving.{queued-IsMaster}
use graduation_research_prog.Message.InFlight.{Recorded}
use graduation_research_prog.Slave.State.{Slave, Env}
use graduation_research_prog.Slave.Actions.{to_slave, to_region, same_region}
use graduation_research_prog.Slave.Delivery.{queued, expected, CanLog, peers_of}
use graduation_research_prog.Slave.Exchange.{ack_datagram, request_datagram, Unmoved}
use graduation_research_prog.Slave.Replies.{Told-each, step-ack, step-request}
use graduation_research_prog.Slave.{slave_step}
use graduation_research_prog.System.Invariant.{Owed, Acked, Agrees, within-IsSystem}
use graduation_research_prog.System.Rounds.{Delivered, deliver-Delivered}
use graduation_research_prog.Cluster.{Cluster}
use graduation_research_prog.Cluster.Invariant.{view, Logs, IsCluster, update-later}
use graduation_research_prog.Cluster.Routing.{
  Asked, Inbound, batch_in, ack_in, request_in, Routed, slave_bound, master_bound,
}

-- What the round of the slave `me` comes to.
pub record Stepped (method : Method) (me : ℕ) (env : Env) (d : Datagram) (m : Master)
    (slaves : ℕ → Slave) : Type 0 where
  pub final : Slave
  pub sent : List Sent
  pub runs : slave_step method me env (some d) (slaves me) ≡ done (final, sent)
  pub later : (slaves me).next_batch_epoch_id ≤ final.next_batch_epoch_id
  pub counted : length final.write_tx_buffer ≡ final.next_batch_epoch_id
  pub agreement : Agrees m final
  pub logs : Logs m.write_tx_buffer final
  pub routed :
      (i : ℕ) (x : Sent)
      → get_elem? sent i ≡ some x
      → Routed m.write_tx_buffer (update me final slaves) x

-- Whom the loop over the slaves tells.
to_region-each :
    (me k id : ℕ) (msg : Buf) (len i : ℕ) (x : Sent)
    → get_elem? (to_region me k id msg len) i ≡ some x
    → (q : ℕ) × (q < id + k) × (x ≡ to_slave q msg len)
unfolding to_region
to_region-each me zero id msg len i x h = cc
to_region-each me (suc k) id msg len i x h =
    let next_round : (j : ℕ)
        → get_elem? (to_region me k (suc id) msg len) j ≡ some x
        → (q : ℕ) × (q < id + suc k) × (x ≡ to_slave q msg len) =
      λ j g.
        let (q, small, e) = to_region-each me k (suc id) msg len j x g in (q, further q small, e) in
    elim (Bool-cases (not (id == me) && same_region (get_region id) (get_region me))) [
      | inr skip ↦ next_round i (subst (tells i) skip h)
      | inl told ↦
          elim (get_elem?-cons (to_slave id msg len) x (to_region me k (suc id) msg len) i
            (subst (tells i) told h)) [
              | inl same ↦ (id, omega arith, sym same)
              | inr (j, g) ↦ next_round j g
            ]
    ]
  where
    tells : ℕ → Bool → Type 0
    tells j b =
        get_elem?
          (if b
            then to_slave id msg len ∷ to_region me k (suc id) msg len
            else to_region me k (suc id) msg len)
          j
        ≡ some x

    further : (q : ℕ) → q < suc id + k → q < id + suc k
    further q small = omega arith

peers_of-each :
    (method : Method) (me : ℕ) (msg : Buf) (len i : ℕ) (x : Sent)
    → get_elem? (peers_of method me msg len) i ≡ some x
    → (q : ℕ) × (q < 2 ^ 15) × (x ≡ to_slave q msg len)
peers_of-each proposed_method me msg len i x h =
    let (q, small, e) = to_region-each me (replica_num - 1) 1 msg len i x h in (q, omega arith, e)
peers_of-each conventional_method me msg len i x h = cc
peers_of-each tcp_method me msg len i x h = cc

module _ (method : Method) (udp : method ≢ tcp_method) (c : Cluster) (v : IsCluster c) (me : ℕ)
    (small : me < 2 ^ 15) (env : Env) (can : CanLog env) where
  -- no slave is ahead of the determined epochs
  within : (q : ℕ) → (c.slaves q).next_batch_epoch_id ≤ 2 ^ 15
  within q = omega (arith, within-IsSystem (view c q) (v.part q), (v.part q).bounded)

  -- a round that neither queues nor logs
  Unmoved-Stepped :
      (d : Datagram) (t : Slave) (sent : List Sent)
      → slave_step method me env (some d) (c.slaves me) ≡ done (t, sent)
      → Unmoved (c.slaves me) t
      → ((i : ℕ) (x : Sent)
          → get_elem? sent i ≡ some x
          → Routed c.master.write_tx_buffer (update me t c.slaves) x)
      → Stepped method me env d c.master c.slaves
  Unmoved-Stepped d t sent runs u routed =
      let (rest, agreed) = (v.part me).agreement in
      record {
        final = t;
        sent = sent;
        runs = runs;
        later = omega (arith, u.same_next);
        counted = ap length u.same_queue ∙ (v.part me).counted ∙ sym u.same_next;
        agreement = (
          rest,
          subst (λ q. map expected c.master.write_tx_buffer ≡ map queued q ++ rest)
              (sym u.same_queue) agreed,
        );
        logs = λ e b at below.
            subst (λ l. Recorded l e b) (sym u.same_log)
              (v.logs me e b at (omega (arith, u.same_next)));
        routed = routed;
      }

  ack-Stepped :
      (q : ℕ) (d : Datagram)
      → q < 2 ^ 15
      → Acked q (c.slaves q).next_batch_epoch_id d
      → Stepped method me env d c.master c.slaves
  unfolding to_slave
  ack-Stepped q d hq a =
      let s = c.slaves me in
      let (t, sent, runs, u, told) =
        step-ack me env s q a.epoch a.buffer hq (omega (arith, a.past, within q)) method udp
          (within me) in
      subst (λ x. Stepped method me env x c.master c.slaves) (sym a.made)
        (Unmoved-Stepped (ack_datagram q a.epoch a.buffer) t sent runs u (λ i x h.
          let (reached, e) = Told-each i x told h in
          subst (Routed c.master.write_tx_buffer (update me t c.slaves)) (sym e)
            (asking t u reached)))
    where
      asking :
          (t : Slave)
          → Unmoved (c.slaves me) t
          → (c.slaves me).next_batch_epoch_id ≤ a.epoch
          → Routed c.master.write_tx_buffer (update me t c.slaves) (
              to_slave q
                (request_datagram me (c.slaves me).next_batch_epoch_id (c.slaves me).send_msg).bytes
                (request_datagram me (c.slaves me).next_batch_epoch_id (c.slaves me).send_msg).len)
      asking t u reached =
          let later =
            update-later me t c.slaves (
              subst (λ n. (c.slaves me).next_batch_epoch_id ≤ n) (sym u.same_next) (omega arith)) in
          slave_bound q refl (
            request_in me small (record {
              epoch = (c.slaves me).next_batch_epoch_id;
              buffer = (c.slaves me).send_msg;
              made = refl;
              answerable = omega (arith, later q, a.past);
              reached = later me;
            }))

  batch-Stepped :
      (d : Datagram)
      → Owed c.master.write_tx_buffer (c.slaves me).next_batch_epoch_id d
      → Stepped method me env d c.master c.slaves
  unfolding to_slave
  batch-Stepped d o =
      let w = deliver-Delivered method me udp (view c me) (v.part me) env d can o in
      record {
        final = w.final;
        sent = w.ack ∷ w.others;
        runs = w.runs;
        later = w.later;
        counted = w.counted;
        agreement = w.agreement;
        logs = λ e b at below. w.logs e b at below (v.logs me e b at);
        routed = told w;
      }
    where
      acked :
          (w : Delivered method me env d o.epoch c.master (c.slaves me))
          → Acked me (update me w.final c.slaves me).next_batch_epoch_id (datagram_of_sent w.ack)
      acked w =
          subst (λ (s : Slave). Acked me s.next_batch_epoch_id (datagram_of_sent w.ack))
            (sym (update_self me w.final c.slaves)) w.acked.0

      told :
          (w : Delivered method me env d o.epoch c.master (c.slaves me)) (i : ℕ) (x : Sent)
          → get_elem? (w.ack ∷ w.others) i ≡ some x
          → Routed c.master.write_tx_buffer (update me w.final c.slaves) x
      told w zero x h =
          subst (Routed c.master.write_tx_buffer (update me w.final c.slaves)) (some-injective h)
            (master_bound me w.port (acked w))
      told w (suc i) x h =
          let (q, hq, e) = peers_of-each method me w.ack.msg w.ack.len i x (w.peers i x h) in
          subst (Routed c.master.write_tx_buffer (update me w.final c.slaves)) (sym e)
            (slave_bound q refl (ack_in me small (acked w)))

  request-Stepped :
      (q : ℕ) (d : Datagram)
      → q < 2 ^ 15
      → Asked q (c.slaves q).next_batch_epoch_id (c.slaves me).next_batch_epoch_id d
      → Stepped method me env d c.master c.slaves
  unfolding to_slave
  request-Stepped q d hq a =
      let s = c.slaves me in
      let w = v.part me in
      let (b, at, named, sound, _) =
        queued-IsMaster c.master c.determined a.epoch w.master
          (omega (arith, a.answerable, within-IsSystem (view c me) w)) in
      let (t, sent, runs, u, told) =
        step-request me env s q a.epoch a.buffer hq (omega (arith, a.answerable, within me)) method
          b udp can sound.size (v.logs me a.epoch b at a.answerable) in
      let later =
        update-later me t c.slaves
          (subst (λ n. (c.slaves me).next_batch_epoch_id ≤ n) (sym u.same_next) (omega arith)) in
      subst (λ x. Stepped method me env x c.master c.slaves) (sym a.made)
        (Unmoved-Stepped (request_datagram q a.epoch a.buffer) t sent runs u (λ i x h.
          let (out, e, carries) = Told-each i x told h in
          subst (Routed c.master.write_tx_buffer (update me t c.slaves)) (sym e) (
            slave_bound q refl (
              batch_in (record {
                epoch = a.epoch;
                batch = b;
                at = at;
                named = named;
                sound = sound;
                carries = carries;
                reached = omega (arith, a.reached, later q);
              })))))

  pub Inbound-Stepped :
      (d : Datagram)
      → Inbound c.master.write_tx_buffer c.slaves me d
      → Stepped method me env d c.master c.slaves
  Inbound-Stepped d (batch_in o) = batch-Stepped d o
  Inbound-Stepped d (ack_in q hq a) = ack-Stepped q d hq a
  Inbound-Stepped d (request_in q hq a) = request-Stepped q d hq a
