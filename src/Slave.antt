-- ===== src/Slave.antt =====
-- slave/slave_sequencer.c: the thread of a slave that receives batches, in both methods.
-- One step is one round of the `while` loop: the datagram that `udp_sv_receive_msg` returns, or its
-- failure, is an argument, and the messages that the round sends are part of the result, in order.
-- The lines that write the CSV log are left out. `write_tx_buffer` is the queue of batches, oldest
-- first, and `batch_log` the log file.
pub mod Actions
pub mod Delivery
pub mod Exchange
pub mod Logged
pub mod Accept
pub mod Order
pub mod Peers
pub mod Replies
pub mod State
mod Tests
use graduation_research_prog.Base.{
  ℕ, ◌-◌, Bool, true, false, if◌then◌else◌, ◌==◌, Option, none, some, List, [], ◌∷◌, ◌++◌,
}
use graduation_research_prog.Outcome.{Outcome, done, abort, and_then}
use graduation_research_prog.Bytes.{Buf}
use graduation_research_prog.Network.{Datagram, Sent, udp_sv_receive_msg}
use graduation_research_prog.Config.{Method, proposed_method, conventional_method, tcp_method}
use graduation_research_prog.Config.Constants.{replica_num}
use graduation_research_prog.Log.{batch_log_size}
use graduation_research_prog.Message.{
  check_msg, batch_message, ack_batch_message, request_batch_message,
}
use graduation_research_prog.Slave.State.{Slave, Env}
use graduation_research_prog.Slave.Actions.{
  Round, to_region, on_batch, on_ack_batch, on_request_batch,
}

-- one round of `proposed_method_recieve_batch_connection`
unfoldable pub proposed_step : ℕ → Env → Option Datagram → Slave → Round
proposed_step my_replica_id env event old =
    let (msg, len) = udp_sv_receive_msg old.recv_msg batch_log_size event in
    let s = record old { recv_msg = msg } in
    if check_msg msg batch_message
    then on_batch (to_region my_replica_id (replica_num - 1) 1) my_replica_id env s len
    else if check_msg msg ack_batch_message
    then on_ack_batch my_replica_id s
    else if check_msg msg request_batch_message
    then on_request_batch env s
    else done (s, [])

-- one round of `conventional_method_recieve_batch_connection`
unfoldable pub conventional_step : ℕ → Env → Option Datagram → Slave → Round
conventional_step my_replica_id env event old =
    let (msg, len) = udp_sv_receive_msg old.recv_msg batch_log_size event in
    let s = record old { recv_msg = msg } in
    if check_msg msg batch_message
    then on_batch (λ _ _. []) my_replica_id env s len
    else done (s, [])

-- `slave_sequencer`: the loop of the method. With TCP there is none, and nothing is received.
unfoldable pub slave_step : Method → ℕ → Env → Option Datagram → Slave → Round
unfolding proposed_step conventional_step
slave_step proposed_method my_replica_id env event s = proposed_step my_replica_id env event s
slave_step conventional_method my_replica_id env event s =
    conventional_step my_replica_id env event s
slave_step tcp_method my_replica_id env event s = done (s, [])

-- the thread before its first round; the buffers are not initialised
unfoldable pub startup : Buf → Buf → Slave
startup recv_msg send_msg = record {
  next_batch_epoch_id = 0;
  recv_msg = recv_msg;
  send_msg = send_msg;
  batch_log = none;
  write_tx_buffer = [];
}

-- the rounds that a row of events leads through, each with what its environment did
unfoldable pub run : Method → ℕ → List (Env × Option Datagram) → Slave → Outcome Slave
run method my_replica_id [] s = done s
run method my_replica_id ((env, event) ∷ events) s =
    and_then (slave_step method my_replica_id env event s)
      (λ (t, _). run method my_replica_id events t)
