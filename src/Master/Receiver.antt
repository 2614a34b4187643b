-- ===== src/Master/Receiver.antt =====
-- master/master_sequencer.c: `recieve_tx_connection`, the thread that takes the write transactions
-- of one client. Each message is acknowledged; a transaction that is not newer than the newest one
-- taken is dropped, and a new one is added to the batch, again and again until there is room.
use graduation_research_prog.Base.{ℕ, ◌==◌, if◌then◌else◌, Option, none, some, List, [], ◌∷◌}
use graduation_research_prog.Words.{int_minus_one, int_le}
use graduation_research_prog.Bytes.{Buf}
use graduation_research_prog.Tx.{Tx, create_tx, write_only, finish_request}
use graduation_research_prog.Network.{Datagram, udp_sv_receive_msg}
use graduation_research_prog.Message.{
  check_msg, add_to_batch_message, get_info_from_add_to_batch_msg, create_ack_add_msg,
}
use graduation_research_prog.Master.{Master, sequencer_add_write_tx_to_batch}

-- `BUFSIZ` of the C library
abbrev pub bufsiz : ℕ
bufsiz = 8192

-- Where the thread is: at the receive, at the loop that adds a transaction, or past its `break`.
pub data Phase : Type 0 where
  receiving : Phase
  adding : Tx → Phase
  stopped : Phase

pub record Receiver : Type 0 where
  pub recieved_tx_id : ℕ
  pub recv_msg : Buf
  pub send_msg : Buf
  pub phase : Phase

-- the thread before its loop
unfoldable pub receiver_startup : Buf → Buf → Receiver
receiver_startup recv_msg send_msg = record {
  recieved_tx_id = int_minus_one;
  recv_msg = recv_msg;
  send_msg = send_msg;
  phase = receiving;
}

-- what follows a transaction that is new
unfoldable pub phase_of : Tx → Phase
phase_of tx =
    if tx.type == write_only
    then adding tx
    else if tx.type == finish_request
    then stopped
    else stopped

-- One receive. The message is the answer to the sender, with its length.
unfoldable pub receive_step : Tx → Option Datagram → Receiver → Receiver × Option (Buf × ℕ)
unfolding phase_of create_tx
receive_step raw event old =
    let (msg, len) = udp_sv_receive_msg old.recv_msg bufsiz event in
    let r = record old { recv_msg = msg } in
    let tx = get_info_from_add_to_batch_msg msg (create_tx raw) in
    let (ack, ack_len) = create_ack_add_msg tx.replica_id tx.client_id tx.id old.send_msg in
    let answered = record r { send_msg = ack } in
    if check_msg msg add_to_batch_message
    then (
      if int_le tx.id old.recieved_tx_id
          then answered
          else record answered { recieved_tx_id = tx.id; phase = phase_of tx },
      some (ack, ack_len),
    )
    else (r, none)

-- one round of `while (sequencer_add_write_tx_to_batch(tx) == 0)`
unfoldable pub add_step : Tx → Receiver → Master → Receiver × Master
add_step tx r m =
    let (m', ret) = sequencer_add_write_tx_to_batch m tx in
    (if ret then record r { phase = receiving } else r, m')

-- what the phase after a receive adds to the transactions that are taken later
unfoldable pub follow : Phase → List Tx → List Tx
follow receiving rest = rest
follow (adding tx) rest = tx ∷ rest
follow stopped rest = []

-- The transactions that the thread takes from a row of receives, each added before the next one.
unfoldable pub taken : List (Tx × Option Datagram) → Receiver → List Tx
unfolding follow
taken [] r = []
taken ((raw, event) ∷ events) r =
    let r' = (receive_step raw event r).0 in
    follow r'.phase (taken events (record r' { phase = receiving }))
