-- ===== src/System/Rounds.antt =====
-- The round of a slave with any datagram that is in flight to it.
use mathlib.Core.List.{append_assoc}
use graduation_research_prog.Base.{
  some-injective, ℕ, ◌<◌, ◌≤◌, ◌^◌, ◌≡◌, ◌≢◌, refl, sym, ◌∙◌, ap, subst, inl, inr, Bool-cases,
  ==→eq, ◌==◌, some, List, [], ◌∷◌, ◌++◌, map, length, length-map, length-append, get_elem?,
  get_elem?-bound, get_elem?-map, rest-get_elem?, arith,
}
use graduation_research_prog.Outcome.{done}
use graduation_research_prog.Batch.{Batch}
use graduation_research_prog.Message.InFlight.{Recorded}
use graduation_research_prog.Network.{Datagram, Sent}
use graduation_research_prog.Config.{
  Method, tcp_method, get_port_master_sequencer_from_slave_sequencer,
}
use graduation_research_prog.Master.{Master}
use graduation_research_prog.Master.Epochs.{length-queue}
use graduation_research_prog.Slave.State.{Slave, Env}
use graduation_research_prog.Slave.Actions.{to_master}
use graduation_research_prog.Slave.Accept.{ack_of}
use graduation_research_prog.Slave.Delivery.{
  queued, expected, peers_of, CanLog, holding, step-fresh, step-again,
}
use graduation_research_prog.Slave.{slave_step}
use graduation_research_prog.System.{System, datagram_of_sent}
use graduation_research_prog.System.Invariant.{Owed, Acked, Agrees, IsSystem, within-IsSystem}

-- What the round of a slave comes to, with a datagram in flight that carries the batch of epoch `e`.
pub record Delivered (method : Method) (me : ℕ) (env : Env) (d : Datagram) (e : ℕ) (m : Master)
    (s : Slave) : Type 0 where
  pub final : Slave
  pub ack : Sent
  pub others : List Sent
  pub runs : slave_step method me env (some d) s ≡ done (final, ack ∷ others)
  pub later : s.next_batch_epoch_id ≤ final.next_batch_epoch_id
  pub acked : (a : Acked me final.next_batch_epoch_id (datagram_of_sent ack)) × (a.epoch ≡ e)
  pub counted : length final.write_tx_buffer ≡ final.next_batch_epoch_id
  pub agreement : Agrees m final
  pub port : ack.port ≡ get_port_master_sequencer_from_slave_sequencer me
  pub peers :
      (i : ℕ) (x : Sent)
      → get_elem? others i ≡ some x
      → get_elem? (peers_of method me ack.msg ack.len) i ≡ some x
  pub logs :
      (e : ℕ) (x : Batch)
      → get_elem? m.write_tx_buffer e ≡ some x
      → e < final.next_batch_epoch_id
      → (e < s.next_batch_epoch_id → Recorded s.batch_log e x)
      → Recorded final.batch_log e x

ack_of-Acked :
    (me due epoch e : ℕ) (s : Slave)
    → epoch < due
    → epoch ≡ e
    → (a : Acked me due (datagram_of_sent (ack_of me s epoch))) × (a.epoch ≡ e)
unfolding to_master
ack_of-Acked me due epoch e s h same =
    (record { epoch = epoch; buffer = s.send_msg; made = refl; past = h }, same)

nothing : (i : ℕ) {x : Sent} → get_elem? [] i ≡ some x → ⊥
nothing i h = cc

module _ (method : Method) (me : ℕ) (udp : method ≢ tcp_method) (c : System)
    (v : IsSystem me c) where
  deliver-fresh :
      (env : Env) (d : Datagram)
      → CanLog env
      → (o : Owed c.master.write_tx_buffer c.slave.next_batch_epoch_id d)
      → o.epoch ≡ c.slave.next_batch_epoch_id
      → Delivered method me env d o.epoch c.master c.slave
  unfolding to_master
  deliver-fresh env d can o e =
      let small : c.slave.next_batch_epoch_id < 2 ^ 15 = omega (
        arith,
        e,
        get_elem?-bound c.master.write_tx_buffer o.epoch o.at,
        length-queue c.master c.determined v.master,
        v.bounded,
      ) in
      let (t, others, runs, next_epoch, queue, told, logged, kept) =
        step-fresh method udp me env c.slave d o.batch o.carries o.sound (o.named ∙ e) small can in
      let (rest, agreed) = v.agreement in
      let found : get_elem? (map queued c.slave.write_tx_buffer ++ rest)
            (length (map queued c.slave.write_tx_buffer))
          ≡ some (expected o.batch) =
        ap (λ q. get_elem? q (length (map queued c.slave.write_tx_buffer))) (sym agreed)
        ∙ ap (get_elem? (map expected c.master.write_tx_buffer))
            (length-map queued c.slave.write_tx_buffer ∙ v.counted ∙ sym e)
        ∙ get_elem?-map expected c.master.write_tx_buffer o.epoch o.at in
      let (tail, split) =
        rest-get_elem? (map queued c.slave.write_tx_buffer) rest (expected o.batch) found in
      record {
        final = t;
        ack = ack_of me (holding c.slave (some d)) c.slave.next_batch_epoch_id;
        others = others;
        runs = runs;
        later = omega (arith, next_epoch);
        acked =
            ack_of-Acked me t.next_batch_epoch_id c.slave.next_batch_epoch_id o.epoch
              (holding c.slave (some d)) (omega (arith, next_epoch)) (sym e);
        counted =
            sym (length-map queued t.write_tx_buffer)
            ∙ ap length queue
            ∙ omega (
              arith,
              length-append (map queued c.slave.write_tx_buffer) (expected o.batch ∷ []),
              length-map queued c.slave.write_tx_buffer,
              v.counted,
              next_epoch,
            );
        agreement = (
          tail,
          agreed
              ∙ ap (λ r. map queued c.slave.write_tx_buffer ++ r) split
              ∙ sym (append_assoc (map queued c.slave.write_tx_buffer) (expected o.batch ∷ []) tail)
              ∙ ap (λ q. q ++ tail) (sym queue),
        );
        port = refl;
        peers = λ i x h. ap (λ l. get_elem? l i) (sym told) ∙ h;
        logs = λ n x at below old. elim (Bool-cases (n == c.slave.next_batch_epoch_id)) [
          | inl hit ↦
              let same : n ≡ c.slave.next_batch_epoch_id =
                ==→eq n c.slave.next_batch_epoch_id hit in
              subst (λ k. Recorded t.batch_log k x) (sym same)
                (subst (Recorded t.batch_log c.slave.next_batch_epoch_id)
                  (some-injective
                    (sym o.at ∙ ap (get_elem? c.master.write_tx_buffer) (e ∙ sym same) ∙ at))
                  logged)
          | inr miss ↦ kept n x (ground arith) (old (ground (arith, next_epoch)))
        ];
      }

  deliver-again :
      (env : Env) (d : Datagram)
      → (o : Owed c.master.write_tx_buffer c.slave.next_batch_epoch_id d)
      → o.epoch < c.slave.next_batch_epoch_id
      → Delivered method me env d o.epoch c.master c.slave
  unfolding to_master
  deliver-again env d o lt =
      let within = within-IsSystem c v in
      let (t, others, runs, next_epoch, queue, told, log) =
        step-again method udp me env c.slave d o.batch o.carries o.sound (omega (arith, o.named))
          (omega (arith, within, v.bounded)) in
      let (rest, agreed) = v.agreement in
      record {
        final = t;
        ack = ack_of me (holding c.slave (some d)) o.batch.epoch_id;
        others = others;
        runs = runs;
        later = omega (arith, next_epoch);
        acked =
            ack_of-Acked me t.next_batch_epoch_id o.batch.epoch_id o.epoch
              (holding c.slave (some d)) (omega (arith, next_epoch, o.named)) o.named;
        counted = ap length queue ∙ v.counted ∙ sym next_epoch;
        agreement = (rest, agreed ∙ ap (λ q. map queued q ++ rest) (sym queue));
        port = refl;
        peers = λ i x h. absurd (nothing i (ap (λ l. get_elem? l i) (sym told) ∙ h));
        logs = λ n x at below old.
            subst (λ l. Recorded l n x) (sym log) (old (omega (arith, next_epoch)));
      }

  pub deliver-Delivered :
      (env : Env) (d : Datagram)
      → CanLog env
      → (o : Owed c.master.write_tx_buffer c.slave.next_batch_epoch_id d)
      → Delivered method me env d o.epoch c.master c.slave
  deliver-Delivered env d can o = elim (Bool-cases (o.epoch == c.slave.next_batch_epoch_id)) [
    | inl e ↦ deliver-fresh env d can o (==→eq o.epoch c.slave.next_batch_epoch_id e)
    | inr ne ↦ deliver-again env d o (ground (arith, o.reached))
  ]
