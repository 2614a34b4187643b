-- ===== src/ClientInterface/Tests.antt =====
-- Examples of client_interface/client_interface.c.
use graduation_research_prog.Base.{◌≡◌, refl, true, none, some, [], ◌∷◌, arith, replicate}
use graduation_research_prog.Network.{udp_sv_receive_msg}
use graduation_research_prog.Message.{
  check_msg, create_ack_add_msg, get_info_from_ack_add_msg, create_request_tx_msg,
}
use graduation_research_prog.Message.BatchBlocks.{arrived}
use graduation_research_prog.Samples.{zeros, tx_of, three-IsTx, nine-IsTx}
use graduation_research_prog.Master.Receiver.{Receiver, receiver_startup, receive_step, adding}
use graduation_research_prog.ClientInterface.{write, write_request, on_message, on_ack}
use graduation_research_prog.Outcome.{done, exit}
use graduation_research_prog.ClientInterface.Accepting.{accept_clients_lem}
use graduation_research_prog.ClientInterface.Threads.{Look, request_write_tx, accept_clients}
use graduation_research_prog.ClientInterface.Resend.{
  Quiet, acknowledged_look, request_write_tx-acknowledged,
}
use graduation_research_prog.ClientInterface.Acks.{on_ack-own, on_ack-other}
use graduation_research_prog.ClientInterface.Journey.{on_message-write, receive_step-write_request}

on_message-write_example :
    on_message (create_request_tx_msg (tx_of 3) zeros).0 zeros (tx_of 0)
    ≡ (arrived (tx_of 3), write (write_request (arrived (tx_of 3)) zeros))
on_message-write_example = on_message-write (tx_of 3) (tx_of 0) zeros zeros three-IsTx refl

-- the thread has taken the transaction 5
abbrev receiver : Receiver
receiver = record (receiver_startup zeros zeros) { recieved_tx_id = 5 }

receive_step-write_request_example :
    let s = write_request (tx_of 9) zeros in
    (receive_step (tx_of 0) (some (record { bytes = s.msg; len = s.len })) receiver).0.phase
    ≡ adding (arrived (tx_of 9))
receive_step-write_request_example =
    receive_step-write_request (tx_of 9) (tx_of 0) zeros receiver nine-IsTx refl

on_ack-own_example :
    (on_ack (tx_of 3) zeros (
      some (record {
        bytes = (create_ack_add_msg 1 2 3 zeros).0;
        len = (create_ack_add_msg 1 2 3 zeros).1;
      }))).1
    ≡ true
on_ack-own_example = on_ack-own (tx_of 3) zeros zeros three-IsTx

on_ack-three :
    (on_ack (tx_of 3) zeros (
      some (record {
        bytes = (create_ack_add_msg 1 2 3 zeros).0;
        len = (create_ack_add_msg 1 2 3 zeros).1;
      }))).1
    ≡ true
unfolding on_ack create_ack_add_msg get_info_from_ack_add_msg check_msg udp_sv_receive_msg
on_ack-three = ground arith

on_ack-other_example : ((tx_of 3).replica_id ≡ 1) × ((tx_of 3).client_id ≡ 2) × ((tx_of 3).id ≡ 3)
on_ack-other_example =
    on_ack-other (tx_of 3) (tx_of 3) zeros zeros three-IsTx three-IsTx on_ack-three

-- nothing comes in until the timeout has passed
abbrev silent : Look
silent = record { outer_request = 0; inner_request = 0; event = none; overtime = true }

silent-Quiet : Quiet (tx_of 3) silent
unfolding on_ack
silent-Quiet = record { outer_on = refl; inner_on = refl; unheard = λ _. refl }

-- two timeouts, then the acknowledgement
request_write_tx-acknowledged_example :
    request_write_tx
      (tx_of 3)
      zeros
      zeros
      (silent ∷ silent ∷ acknowledged_look (tx_of 3) zeros ∷ silent ∷ [])
    ≡ done (replicate 3 (write_request (tx_of 3) zeros))
request_write_tx-acknowledged_example =
    request_write_tx-acknowledged (tx_of 3) zeros zeros zeros (silent ∷ silent ∷ []) (silent ∷ [])
      three-IsTx (omega arith) (silent-Quiet, (silent-Quiet, tt))

-- the second of three connections fails
accept_clients_example : accept_clients 3 (5 ∷ 0xffff_ffff ∷ 6 ∷ 7 ∷ []) ≡ exit
accept_clients_example = accept_clients_lem 3 (5 ∷ 0xffff_ffff ∷ 6 ∷ 7 ∷ []) (omega arith)
