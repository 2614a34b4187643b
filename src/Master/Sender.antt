-- ===== src/Master/Sender.antt =====
-- master/master_sequencer.c: the thread that sends the determined batches to one slave, in both
-- methods. The two functions differ in one test: the proposed method takes an ACK of a later epoch
-- too, and goes on behind it.
use graduation_research_prog.Base.{
  ℕ, ◌==◌, Bool, true, false, not, ◌&&◌, if◌then◌else◌, Option, none, some,
}
use graduation_research_prog.Words.{int_le, int_inc}
use graduation_research_prog.Outcome.{Outcome, done, and_then}
use graduation_research_prog.Bytes.{Buf}
use graduation_research_prog.Network.{Datagram, Sent, udp_sv_receive_msg}
use graduation_research_prog.Config.{
  Method, proposed_method, conventional_method, tcp_method, get_port_slave_sequencer,
  get_sequencer_ipaddr,
}
use graduation_research_prog.Log.{File, Answers, batch_log_size, read_log}
use graduation_research_prog.Message.{check_msg, ack_batch_message, get_info_from_ack_batch_msg}

-- The thread's variables. `sending` is `flag == 0`: the batch `send_epoch_id` is not yet
-- acknowledged.
pub record Sender : Type 0 where
  pub next_epoch_id : ℕ
  pub send_epoch_id : ℕ
  pub send_msg : Buf
  pub send_msg_len : ℕ
  pub recv_msg : Buf
  pub sending : Bool

unfoldable pub sender_startup : Buf → Buf → Sender
sender_startup send_msg recv_msg = record {
  next_epoch_id = 0;
  send_epoch_id = 0;
  send_msg = send_msg;
  send_msg_len = 0;
  recv_msg = recv_msg;
  sending = false;
}

-- the test of the outer loop, and the batch that is read from the log if there is one to send
unfoldable pub begin_step :
    Bool → Answers → Buf → (determined_epoch_id : ℕ) → Option File → Sender → Outcome Sender
begin_step opened answers stack determined_epoch_id batch_log s =
    if not s.sending && int_le s.next_epoch_id determined_epoch_id
    then and_then (read_log opened answers stack batch_log s.send_msg s.next_epoch_id)
        (λ (msg, len, over). done (record s {
          send_epoch_id = s.next_epoch_id;
          send_msg = msg;
          send_msg_len = len;
          sending = true;
        }))
    else done s

-- one `udp_cl_send_msg` of the batch, the first or, when the timeout has passed, another
unfoldable pub transmit_step : (connection_replica_id : ℕ) → Sender → Option Sent
transmit_step connection_replica_id s =
    if s.sending
    then some (record {
      ipaddr = get_sequencer_ipaddr connection_replica_id;
      port = get_port_slave_sequencer connection_replica_id;
      msg = s.send_msg;
      len = s.send_msg_len;
    })
    else none

-- does an ACK of `epoch` end the sending of `send_epoch_id`?
unfoldable pub accepts : Method → (epoch send_epoch_id : ℕ) → Bool
accepts proposed_method epoch send_epoch_id = int_le send_epoch_id epoch
accepts conventional_method epoch send_epoch_id = epoch == send_epoch_id
accepts tcp_method epoch send_epoch_id = false

-- One receive while waiting for the ACK. `none` is a receive that found nothing. The thread does not
-- receive while it has nothing to send.
unfoldable pub ack_step : Method → Option Datagram → Sender → Sender
unfolding accepts
ack_step method none s = s
ack_step method (some d) old =
    let (msg, len) = udp_sv_receive_msg old.recv_msg batch_log_size (some d) in
    let s = record old { recv_msg = msg } in
    let (replica, epoch) = get_info_from_ack_batch_msg msg in
    if old.sending
    then if check_msg msg ack_batch_message && accepts method epoch s.send_epoch_id
      then record s { next_epoch_id = int_inc epoch; sending = false }
      else s
    else old
