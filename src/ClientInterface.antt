-- ===== src/ClientInterface.antt =====
-- client_interface/client_interface.c: the thread of a slave that serves one client.
-- The thread handles one request at a time: `on_message` is what it does with a message from the
-- client, `on_ack` one receive of `request_write_tx` while it waits for the master, and `respond`
-- what it does when the transaction is complete. The tests of `system_finish_request`, the timeout
-- and the CSV log are left out.
pub mod Accepting
pub mod Acks
pub mod Journey
pub mod Resend
pub mod Threads
mod Tests
use graduation_research_prog.Base.{
  ℕ, ◌==◌, ◌&&◌, Bool, true, false, if◌then◌else◌, Option, none, some, List, [], ◌∷◌, ◌++◌, set,
}
use graduation_research_prog.Words.{int_of_short}
use graduation_research_prog.Bytes.{Buf}
use graduation_research_prog.Tx.{Tx, init_tx, write_only, read_only, finish_request}
use graduation_research_prog.Network.{Datagram, Sent, udp_sv_receive_msg}
use graduation_research_prog.Config.{
  get_port_master_sequencer_from_client_interface, get_sequencer_ipaddr,
}
use graduation_research_prog.Message.{
  check_msg, request_tx_message, ack_add_message, get_info_from_request_tx_msg,
  create_add_to_batch_msg, get_info_from_ack_add_msg, create_response_tx_msg,
}

-- What the thread goes on with: nothing, the request to the master, the queue of reads, its end, or
-- the wait for a flag that nobody raises.
pub data Action : Type 0 where
  ignore : Action
  write : Sent → Action
  read : Tx → Action
  finish : Action
  wait : Action

-- The message that `request_write_tx` sends until it is acknowledged.
unfoldable pub write_request : Tx → Buf → Sent
write_request tx send_msg =
    let (msg, len) = create_add_to_batch_msg tx send_msg in
    record {
      ipaddr = get_sequencer_ipaddr 0;
      port =
          get_port_master_sequencer_from_client_interface (int_of_short tx.replica_id)
            (int_of_short tx.client_id);
      msg = msg;
      len = len;
    }

unfoldable pub action_of : Tx → Buf → Action
unfolding write_request
action_of tx send_msg =
    if tx.type == write_only
    then write (write_request tx send_msg)
    else if tx.type == read_only
    then read tx
    else if tx.type == finish_request
    then finish
    else wait

-- a message from the client: the thread's transaction, and what follows
unfoldable pub on_message : (recv_msg send_msg : Buf) → Tx → Tx × Action
unfolding action_of init_tx
on_message recv_msg send_msg tx =
    let got = get_info_from_request_tx_msg recv_msg (init_tx tx) in
    if check_msg recv_msg request_tx_message then (got, action_of got send_msg) else (tx, ignore)

-- `db_client_info_set[client_id].wait_for_exe = tx`
unfoldable pub set_wait_for_exe : List (Option Tx) → Tx → List (Option Tx)
set_wait_for_exe waiting tx = set waiting (int_of_short tx.client_id) (some tx)

-- One receive while waiting for the master: the buffer, and whether the loop ends (`flag = 1`).
-- `replica_id`, `client_id` and `tx_id` are `int`s, the last one of an `unsigned short`.
unfoldable pub on_ack : Tx → Buf → Option Datagram → Buf × Bool
on_ack tx recv_msg none = (recv_msg, false)
on_ack tx recv_msg (some d) =
    let (msg, len) = udp_sv_receive_msg recv_msg 8192 (some d) in
    let (ack_replica_id, ack_client_id, ack_tx_id) = get_info_from_ack_add_msg msg in
    (
      msg,
      check_msg msg ack_add_message
          && (ack_replica_id == int_of_short tx.replica_id
              && (ack_client_id == int_of_short tx.client_id && ack_tx_id == tx.id)),
    )

-- the answer to the client, once the complete flag is up
unfoldable pub respond : Tx → Buf → Buf × ℕ
respond tx send_msg = create_response_tx_msg tx send_msg
