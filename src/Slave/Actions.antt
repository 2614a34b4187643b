-- ===== src/Slave/Actions.antt =====
-- slave/slave_sequencer.c: what the thread does on each kind of message.
use graduation_research_prog.Base.{
  ℕ, zero, suc, Bool, false, not, ◌&&◌, if◌then◌else◌, ◌==◌, Option, some, List, [], ◌∷◌, ◌++◌,
}
use graduation_research_prog.Words.{int_lt, int_inc, short_of_int}
use graduation_research_prog.Outcome.{Outcome, done, abort, and_then}
use graduation_research_prog.Bytes.{Buf}
use graduation_research_prog.Batch.{batch_create}
use graduation_research_prog.Network.{Sent}
use graduation_research_prog.Config.{
  get_port_master_sequencer_from_slave_sequencer, get_port_slave_sequencer, get_sequencer_ipaddr,
  get_within_region_slave_ipaddr, get_region,
}
use graduation_research_prog.Log.{File, append_log, read_log}
use graduation_research_prog.Message.{
  create_ack_batch_msg, get_info_from_ack_batch_msg, create_request_batch_msg,
  get_info_from_request_batch_message,
}
use graduation_research_prog.Message.BatchCodec.{
  get_info_from_batch_msg, get_epoch_id_from_batch_meg,
}
use graduation_research_prog.Slave.State.{Slave, Env}

-- the new state and what was sent
abbrev pub Round : Type 0
Round = Outcome (Slave × List Sent)

-- `get_region(id) == my_region_id`
unfoldable pub same_region : Option ℕ → Option ℕ → Bool
same_region (some a) (some b) = a == b
same_region _ _ = false

-- an ACK to the port that the master keeps for this slave
unfoldable pub to_master : ℕ → Buf → ℕ → Sent
to_master my_replica_id msg len = record {
  ipaddr = get_sequencer_ipaddr 0;
  port = get_port_master_sequencer_from_slave_sequencer my_replica_id;
  msg = msg;
  len = len;
}

unfoldable pub to_slave : ℕ → Buf → ℕ → Sent
to_slave id msg len = record {
  ipaddr = get_within_region_slave_ipaddr id;
  port = get_port_slave_sequencer id;
  msg = msg;
  len = len;
}

-- `k` rounds of the loop over the slaves, from `id` on
unfoldable pub to_region : ℕ → ℕ → ℕ → Buf → ℕ → List Sent
unfolding same_region to_slave
to_region my_replica_id zero id msg len = []
to_region my_replica_id (suc k) id msg len =
    let rest = to_region my_replica_id k (suc id) msg len in
    if not (id == my_replica_id) && same_region (get_region id) (get_region my_replica_id)
    then to_slave id msg len ∷ rest
    else rest

-- the state once the next batch is in the log `f`: it is decoded and queued
unfoldable pub accepted : ℕ → Env → Slave → ℕ → File → Slave
accepted my_replica_id env s epoch f =
    let b =
      get_info_from_batch_msg env.raw_tx s.recv_msg
        (batch_create env.raw_set (short_of_int epoch)) in
    record s {
      next_batch_epoch_id = int_inc s.next_batch_epoch_id;
      batch_log = some f;
      write_tx_buffer = s.write_tx_buffer ++ (b ∷ []);
      send_msg = (create_ack_batch_msg my_replica_id epoch s.send_msg).0;
    }

-- The next batch is logged, decoded and queued, and acknowledged to the master. `peers` is what
-- follows that ACK. How far `append_log` writes behind its array, by 4 bytes for a message of 1024,
-- is counted in `over` and has no effect here: what stands there is not part of the model.
unfoldable pub accept_batch :
    (peers : Buf → ℕ → List Sent) → ℕ → Env → Slave → (recv_msg_len epoch : ℕ) → Round
unfolding accepted to_master
accept_batch peers my_replica_id env s recv_msg_len epoch =
    let (ack, len) = create_ack_batch_msg my_replica_id epoch s.send_msg in
    and_then (append_log env.opened env.answers env.stack s.batch_log s.recv_msg recv_msg_len epoch)
      (λ (f, over).
        done
          (accepted my_replica_id env s epoch f, to_master my_replica_id ack len ∷ peers ack len))

-- a batch from before: the ACK is sent again, to the master alone
unfoldable pub acknowledge : ℕ → Slave → ℕ → Round
unfolding to_master
acknowledge my_replica_id s epoch =
    let (ack, len) = create_ack_batch_msg my_replica_id epoch s.send_msg in
    done (record s { send_msg = ack }, to_master my_replica_id ack len ∷ [])

-- BATCH_MESSAGE. The last branch is `assert(0)`, or nothing if no comparison holds.
unfoldable pub on_batch : (peers : Buf → ℕ → List Sent) → ℕ → Env → Slave → ℕ → Round
unfolding accept_batch acknowledge
on_batch peers my_replica_id env s recv_msg_len =
    let epoch = get_epoch_id_from_batch_meg s.recv_msg in
    if epoch == s.next_batch_epoch_id
    then accept_batch peers my_replica_id env s recv_msg_len epoch
    else if int_lt epoch s.next_batch_epoch_id
    then acknowledge my_replica_id s epoch
    else if int_lt s.next_batch_epoch_id epoch
    then abort
    else done (s, [])

-- ACK_BATCH_MESSAGE of another slave: ask it for the next batch if it is ahead
unfoldable pub on_ack_batch : ℕ → Slave → Round
unfolding to_slave
on_ack_batch my_replica_id s =
    let (sender, epoch) = get_info_from_ack_batch_msg s.recv_msg in
    let (request, len) = create_request_batch_msg my_replica_id s.next_batch_epoch_id s.send_msg in
    if int_lt epoch s.next_batch_epoch_id
    then done (s, [])
    else done (record s { send_msg = request }, to_slave sender request len ∷ [])

-- REQUEST_BATCH_MESSAGE of another slave: send it the batch from the log
unfoldable pub on_request_batch : Env → Slave → Round
unfolding to_slave
on_request_batch env s =
    let (sender, epoch) = get_info_from_request_batch_message s.recv_msg in
    and_then (read_log env.opened env.answers env.stack s.batch_log s.send_msg epoch)
      (λ (msg, len, over). done (record s { send_msg = msg }, to_slave sender msg len ∷ []))
