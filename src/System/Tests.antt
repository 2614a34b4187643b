-- ===== src/System/Tests.antt =====
-- A run of the master and one slave: one epoch is determined, sent, and delivered.
use graduation_research_prog.Base.{
  ℕ, ◌≤◌, ◌≡◌, ◌≢◌, refl, some, List, ◌∷◌, ◌++◌, map, length, get_elem?, arith,
}
use graduation_research_prog.Outcome.{done}
use graduation_research_prog.Tx.{Tx}
use graduation_research_prog.Network.{Datagram, Sent}
use graduation_research_prog.Config.{proposed_method, tcp_method}
use graduation_research_prog.Samples.{zeros, raw_set, in_two, in_two-Serves}
use graduation_research_prog.Master.Epochs.{here, Reach-IsMaster}
use graduation_research_prog.Master.Sender.{sender_startup}
use graduation_research_prog.Master.Serving.{begin_step-Carries}
use graduation_research_prog.Slave.Delivery.{queued, expected}
use graduation_research_prog.Slave.State.{Slave}
use graduation_research_prog.Slave.{slave_step}
use graduation_research_prog.System.{
  System, datagram_of_sent, system_startup, master_step, begin, transmit, SystemReach, here, more,
}
use graduation_research_prog.System.Invariant.{Acked}
use graduation_research_prog.System.Run.{
  slave_env, slave_env-CanLog, added_step, swapped_step, determined,
}
use graduation_research_prog.System.Agreement.{agreement, arrival-done}

abbrev start : System
start = system_startup raw_set zeros

-- the batch of epoch 0 is in flight
trace :
    (c : System) × (d : Datagram) × SystemReach proposed_method 1 start c
    × (get_elem? c.batches 0 ≡ some d)
unfolding sender_startup
trace =
    let (m, st, reach, _) = determined in
    let (b, out, at, epoch, sound, begins, sends, carries) =
      begin_step-Carries m 1 1 in_two zeros (sender_startup zeros zeros)
        (Reach-IsMaster raw_set zeros reach) (omega arith) refl (omega arith) in_two-Serves in
    (
      _,
      _,
      more
          (more
            (more (more (more here (master_step added_step)) (master_step swapped_step))
              (master_step st))
            (begin in_two zeros in_two-Serves begins))
          (transmit sends),
      refl,
    )

not_tcp : proposed_method ≢ tcp_method
not_tcp h = cc

agreement_example :
    (rest : List (ℕ × List Tx)) × (map expected trace.0.master.write_tx_buffer
      ≡ map queued trace.0.slave.write_tx_buffer ++ rest)
    × (length trace.0.slave.write_tx_buffer ≡ trace.0.slave.next_batch_epoch_id)
    × (trace.0.slave.next_batch_epoch_id ≤ trace.0.determined)
    × (trace.0.sender.next_epoch_id ≤ trace.0.slave.next_batch_epoch_id)
agreement_example = agreement proposed_method 1 not_tcp (omega arith) raw_set zeros trace.0 trace.2

arrival-done_example :
    (t : Slave) × (ack : Sent) × (others : List Sent) × (slave_step proposed_method 1 slave_env
        (some trace.1)
        trace.0.slave
      ≡ done (t, ack ∷ others))
    × (trace.0.slave.next_batch_epoch_id ≤ t.next_batch_epoch_id)
    × Acked 1 t.next_batch_epoch_id (datagram_of_sent ack)
arrival-done_example =
    arrival-done proposed_method 1 not_tcp (omega arith) raw_set zeros trace.0 slave_env 0 trace.1
      trace.2 slave_env-CanLog trace.3
