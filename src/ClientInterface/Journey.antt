-- ===== src/ClientInterface/Journey.antt =====
-- The way of a write transaction from the client to the master's receiving thread.
use graduation_research_prog.Base.{
  ◌≡◌, refl, ap, if◌then◌else◌, Bool-cases, inl, inr, true, some, arith,
}
use graduation_research_prog.Words.{int_le}
use graduation_research_prog.Bytes.{Buf}
use graduation_research_prog.Tx.{Tx, init_tx, create_tx, write_only}
use graduation_research_prog.Tx.Laws.{IsTx}
use graduation_research_prog.Network.{Datagram, udp_sv_receive_msg}
use graduation_research_prog.Message.{
  check_msg, add_to_batch_message, create_request_tx_msg, create_add_to_batch_msg,
  get_info_from_add_to_batch_msg,
}
use graduation_research_prog.Message.Laws.{request_tx_roundtrip, carried}
use graduation_research_prog.Message.BatchBlocks.{arrived}
use graduation_research_prog.Master.Receiver.{Receiver, adding, phase_of, receive_step}
use graduation_research_prog.ClientInterface.{Action, write, write_request, on_message}

carried-init : (tx old : Tx) → carried tx (init_tx old) ≡ arrived tx
unfolding init_tx
carried-init tx old = refl

-- The client's request of a write transaction whose members fit their types, as the client interface
-- reads it: the transaction arrives as it is, its epoch and its flag those of a new one, and the
-- thread goes on with the request to the master.
pub on_message-write :
    (tx old : Tx) (buf send_msg : Buf)
    → IsTx tx
    → tx.type ≡ write_only
    → on_message (create_request_tx_msg tx buf).0 send_msg old
      ≡ (arrived tx, write (write_request (arrived tx) send_msg))
unfolding on_message
on_message-write tx old buf send_msg v e =
    let (typed, got, len) = request_tx_roundtrip tx (init_tx old) buf v in
    rw (typed, got, carried-init tx old) (ap (λ (a : Action). (arrived tx, a)) (rw e))

-- The message of the client interface as the master's thread reads it.
write_request-received :
    (tx raw : Tx) (send_msg recv_msg : Buf)
    → IsTx tx
    → let s = write_request tx send_msg in
      let m = (udp_sv_receive_msg recv_msg 8192 (some (record { bytes = s.msg; len = s.len }))).0 in
      (check_msg m add_to_batch_message ≡ true)
      × (get_info_from_add_to_batch_msg m (create_tx raw) ≡ arrived tx)
unfolding write_request create_add_to_batch_msg get_info_from_add_to_batch_msg check_msg
    udp_sv_receive_msg create_tx
write_request-received tx raw send_msg recv_msg v = ground arith

phase_of-write : (tx : Tx) → tx.type ≡ write_only → phase_of tx ≡ adding tx
unfolding phase_of
phase_of-write tx e = rw e

-- The request of the client interface for a write transaction whose members fit their types, as the
-- master's thread reads it: the thread goes on to add exactly this transaction if its id is newer than
-- the newest one taken, and is where it was otherwise.
pub receive_step-write_request :
    (tx raw : Tx) (send_msg : Buf) (r : Receiver)
    → IsTx tx
    → tx.type ≡ write_only
    → let s = write_request tx send_msg in
      let d : Datagram = record { bytes = s.msg; len = s.len } in
      (receive_step raw (some d) r).0.phase
      ≡ (if int_le tx.id r.recieved_tx_id then r.phase else adding (arrived tx))
unfolding receive_step
receive_step-write_request tx raw send_msg r v e =
    let (typed, got) = write_request-received tx raw send_msg r.recv_msg v in
    rw (typed, got)
      (elim (Bool-cases (int_le tx.id r.recieved_tx_id)) [
        | inl old ↦ rw old
        | inr new ↦ rw new (phase_of-write (arrived tx) e)
      ])
