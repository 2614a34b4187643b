-- ===== src/Cluster/Tests.antt =====
-- A run of the cluster: one epoch is determined and sent to slave 2, which tells its region.
use graduation_research_prog.Base.{
  ℕ, ◌≤◌, ◌≡◌, ◌≢◌, refl, some, List, [], ap, ◌∙◌, ◌∷◌, ◌++◌, map, length, get_elem?, arith,
}
use graduation_research_prog.Tx.{Tx}
use graduation_research_prog.Config.{
  proposed_method, tcp_method, get_port_slave_sequencer, get_sequencer_ipaddr, get_region,
}
use graduation_research_prog.Samples.{zeros, raw_set, in_two, in_two-Serves}
use graduation_research_prog.Master.Epochs.{Reach-IsMaster}
use graduation_research_prog.Master.Sender.{sender_startup, transmit_step}
use graduation_research_prog.Master.Serving.{begin_step-Carries}
use graduation_research_prog.Slave.Delivery.{queued, expected}
use graduation_research_prog.Slave.State.{Slave}
use graduation_research_prog.Slave.{slave_step, startup}
use graduation_research_prog.Slave.Accept.{ack_of}
use graduation_research_prog.System.Run.{
  slave_env, slave_env-CanLog, added_step, swapped_step, determined,
}
use graduation_research_prog.Log.{batch_log_size}
use graduation_research_prog.Batch.{Batch}
use graduation_research_prog.Batch.Laws.{IsSound}
use graduation_research_prog.Bytes.{Buf}
use graduation_research_prog.Message.{create_ack_batch_msg}
use graduation_research_prog.Message.InFlight.{Carries}
use graduation_research_prog.Slave.Actions.{to_slave, to_region, same_region}
use graduation_research_prog.Slave.Delivery.{step-fresh, holding}
use graduation_research_prog.Cluster.{
  Cluster, cluster_startup, master_step, begin, transmit, deliver, ClusterReach, here, more,
}
use graduation_research_prog.Cluster.Agreement.{all_agree, sender_carries}
use graduation_research_prog.Cluster.Convergence.{slave_ids, progress}
use graduation_research_prog.Cluster.Recovery.{Recovered, for_slave, recovery}

abbrev start : Cluster
start = cluster_startup raw_set zeros

-- the batch of epoch 0 is on its way to slave 2
sent_batch :
    (c : Cluster) × (b : Batch) × (out : Buf) × ClusterReach proposed_method start c
    × (c.slaves ≡ start.slaves)
    × (c.net
        ≡ record {
          ipaddr = get_sequencer_ipaddr 2;
          port = get_port_slave_sequencer 2;
          msg = out;
          len = batch_log_size;
        }
          ∷ [])
    × (b.epoch_id ≡ 0)
    × IsSound b
    × Carries (record { bytes = out; len = batch_log_size }) b
    × (transmit_step 2 (c.senders 2)
        ≡ some (record {
          ipaddr = get_sequencer_ipaddr 2;
          port = get_port_slave_sequencer 2;
          msg = out;
          len = batch_log_size;
        }))
unfolding sender_startup
sent_batch =
    let (m, st, reach, _) = determined in
    let (b, out, at, epoch, sound, begins, sends, carries) =
      begin_step-Carries m 1 2 in_two zeros (sender_startup zeros zeros)
        (Reach-IsMaster raw_set zeros reach) (omega arith) refl (omega arith) in_two-Serves in
    (
      _,
      b,
      out,
      more
          (more
            (more (more (more here (master_step added_step)) (master_step swapped_step))
              (master_step st))
            (begin 2 in_two zeros in_two-Serves begins))
          (transmit 2 sends),
      refl,
      refl,
      epoch,
      sound,
      carries,
      sends,
    )

not_tcp : proposed_method ≢ tcp_method
not_tcp h = cc

-- slave 2 has taken it, and told slave 1
told_region :
    (c : Cluster) × (buffer : Buf) × ClusterReach proposed_method start c
    × ((c.slaves 1).next_batch_epoch_id ≡ 0)
    × ((c.slaves 2).next_batch_epoch_id ≡ 1)
    × (get_elem? c.net 2
        ≡ some (to_slave 1 (create_ack_batch_msg 2 0 buffer).0 (create_ack_batch_msg 2 0 buffer).1))
unfolding startup to_region same_region get_region get_port_slave_sequencer
told_region =
    let (c, b, out, reach, slaves, net, epoch, sound, carries, _) = sent_batch in
    let (t, rest, runs, moved, _, told, _, _) =
      step-fresh proposed_method not_tcp 2 slave_env (start.slaves 2)
        (record { bytes = out; len = batch_log_size }) b carries sound epoch (omega arith)
        slave_env-CanLog in
    (
      _,
      zeros,
      more reach (
          deliver 2 slave_env 0 slave_env-CanLog (ap (λ l. get_elem? l 0) net) refl refl (
            ap
              (λ (s : ℕ → Slave).
                slave_step proposed_method 2 slave_env
                  (some (record { bytes = out; len = batch_log_size })) (s 2))
              slaves
            ∙ runs)),
      ap (λ (s : ℕ → Slave). (s 1).next_batch_epoch_id) slaves,
      moved,
      ap
            (λ l.
              get_elem?
                (l
                  ++ (ack_of 2
                        (holding (start.slaves 2)
                          (some (record { bytes = out; len = batch_log_size })))
                        0
                      ∷ rest))
                2)
            net
          ∙ ap (λ l. get_elem? l 0) told,
    )

all_agree_example :
    let c = told_region.0 in
    ((rest : List (ℕ × List Tx)) × (map expected c.master.write_tx_buffer
        ≡ map queued (c.slaves 2).write_tx_buffer ++ rest))
    × (length (c.slaves 2).write_tx_buffer ≡ (c.slaves 2).next_batch_epoch_id)
    × ((c.slaves 2).next_batch_epoch_id ≤ c.determined)
    × ((c.senders 2).next_epoch_id ≤ (c.slaves 2).next_batch_epoch_id)
    × ((rest : List (ℕ × List Tx)) × (map queued (c.slaves 2).write_tx_buffer
          ≡ map queued (c.slaves 2).write_tx_buffer ++ rest))
all_agree_example =
    all_agree proposed_method not_tcp raw_set zeros told_region.0 2 2 told_region.2 (omega arith)

progress_example :
    let c = told_region.0 in
    (t : Cluster) × ClusterReach proposed_method (record c { net = [] }) t
    × (t.master ≡ c.master)
    × (map (λ r. (t.senders r).next_epoch_id) slave_ids ≡ map (λ _. c.determined) slave_ids)
    × (map (λ r. (t.slaves r).next_batch_epoch_id) slave_ids ≡ map (λ _. c.determined) slave_ids)
    × (map (λ r. map queued (t.slaves r).write_tx_buffer) slave_ids
        ≡ map (λ _. map expected c.master.write_tx_buffer) slave_ids)
progress_example =
    progress proposed_method raw_set zeros told_region.0 slave_env not_tcp told_region.2
      slave_env-CanLog

recovery_example :
    Recovered told_region.0 slave_env 1 2 (for_slave 1 (create_ack_batch_msg 2 0 told_region.1))
unfolding get_port_slave_sequencer to_slave
recovery_example =
    recovery raw_set zeros told_region.0 slave_env 1 2 7771 7772 2 0 told_region.1 told_region.2
      slave_env-CanLog refl refl (omega (arith, told_region.3, told_region.4))
      (omega (arith, told_region.3)) (omega arith) told_region.5

sender_carries_example :
    let c = sent_batch.0 in
    (b : Batch) × (get_elem? c.master.write_tx_buffer (c.senders 2).next_epoch_id ≡ some b)
    × (b.epoch_id ≡ (c.senders 2).next_epoch_id)
    × Carries (record { bytes = sent_batch.2; len = batch_log_size }) b
    × (get_port_slave_sequencer 2 ≡ get_port_slave_sequencer 2)
    × ((c.senders 2).next_epoch_id ≤ (c.slaves 2).next_batch_epoch_id)
sender_carries_example =
    sender_carries proposed_method not_tcp raw_set zeros sent_batch.0 2
      (record {
        ipaddr = get_sequencer_ipaddr 2;
        port = get_port_slave_sequencer 2;
        msg = sent_batch.2;
        len = batch_log_size;
      })
      sent_batch.3 sent_batch.9
