-- ===== src/Clients/Answered.antt =====
-- A transaction's way from the client through the client interface and back.
use graduation_research_prog.Base.{ℕ, ◌<◌, ◌^◌, ◌≡◌, refl, ◌∙◌, ap, true, false, some, arith}
use graduation_research_prog.Words.{int_lt}
use graduation_research_prog.Outcome.{done}
use graduation_research_prog.Bytes.{Buf}
use graduation_research_prog.Tx.{
  Tx, init_tx, write_only, set_assigned_epoch_id_to_tx, raise_tx_complete_flag,
}
use graduation_research_prog.Tx.Laws.{IsTx}
use graduation_research_prog.Network.{Datagram}
use graduation_research_prog.Network.Sockets.{
  tcp_sv_receive_msg, tcp_cl_receive_msg, tcp_sv_send_msg,
}
use graduation_research_prog.Message.{
  check_msg, request_tx_message, create_request_tx_msg, get_info_from_request_tx_msg,
  create_response_tx_msg, get_info_from_response_tx_msg,
}
use graduation_research_prog.Message.BatchBlocks.{arrived}
use graduation_research_prog.Message.Laws.{carried}
use graduation_research_prog.Master.Receiver.{bufsiz}
use graduation_research_prog.ClientInterface.{Action, write, write_request, on_message, respond}
use graduation_research_prog.ClientInterface.Threads.{
  ClientThread, Round, Served, answer_client, after_action, client_round,
}
use graduation_research_prog.Clients.{
  ClientThreadInfo, Client, next_tx, send_request, receive_response,
}
use graduation_research_prog.Clients.Requests.{IsRandR, IsWriter, next_tx-IsWrite}

-- The messages, each as the other side receives it.
abbrev pub request_of : Tx → Buf → Datagram
request_of tx buf = record {
  bytes = (create_request_tx_msg tx buf).0;
  len = (create_request_tx_msg tx buf).1;
}

abbrev pub answer_of : Tx → Buf → Datagram
answer_of tx buf = record {
  bytes = (create_response_tx_msg tx buf).0;
  len = (create_response_tx_msg tx buf).1;
}

request_received :
    (tx old : Tx) (buf recv_msg : Buf)
    → IsTx tx
    → let (m, len) = tcp_sv_receive_msg recv_msg bufsiz (some (request_of tx buf)) in
      (check_msg m request_tx_message ≡ true)
      × (get_info_from_request_tx_msg m old ≡ carried tx old)
      × (int_lt len 0 ≡ false)
unfolding create_request_tx_msg get_info_from_request_tx_msg check_msg tcp_sv_receive_msg
request_received tx old buf recv_msg v = ground arith

answer_received :
    (tx old : Tx) (buf recv_msg : Buf)
    → IsTx tx
    → tx.assigned_epoch_id < 2 ^ 16
    → get_info_from_response_tx_msg
        (tcp_cl_receive_msg recv_msg bufsiz (some (answer_of tx buf))).0
        old
      ≡ record (carried tx old) { assigned_epoch_id = tx.assigned_epoch_id }
unfolding create_response_tx_msg get_info_from_response_tx_msg tcp_cl_receive_msg
answer_received tx old buf recv_msg v e = ground arith

carried-init : (tx old : Tx) → carried tx (init_tx old) ≡ arrived tx
unfolding init_tx
carried-init tx old = refl

on_message-received :
    (tx old : Tx) (buf recv_msg send_msg : Buf)
    → IsTx tx
    → tx.type ≡ write_only
    → on_message (tcp_sv_receive_msg recv_msg bufsiz (some (request_of tx buf))).0 send_msg old
      ≡ (arrived tx, write (write_request (arrived tx) send_msg))
unfolding on_message
on_message-received tx old buf recv_msg send_msg v e =
    let (typed, got, len) = request_received tx (init_tx old) buf recv_msg v in
    rw (typed, got, carried-init tx old) (ap (λ (a : Action). (arrived tx, a)) (rw e))

-- what the scheduler has made of the transaction
abbrev pub executed_in : ℕ → Tx → Tx
executed_in epoch tx = raise_tx_complete_flag (set_assigned_epoch_id_to_tx tx epoch)

-- The round of the thread that is given such a request, its scheduler executing it in `epoch`.
abbrev pub round_of : Datagram → ℕ → Round
round_of d epoch = record {
  received = some d;
  executed = executed_in epoch;
  finish_requested = false;
  rc = 14;
}

-- The whole send went out: a response has 14 bytes.
sent_whole : (tx : Tx) (buf : Buf) → int_lt (tcp_sv_send_msg 14 (respond tx buf).1) 0 ≡ false
unfolding tcp_sv_send_msg respond create_response_tx_msg
sent_whole tx buf = refl

client_round-write :
    (tx : Tx) (buf : Buf) (s : ClientThread) (epoch : ℕ)
    → IsTx tx
    → tx.type ≡ write_only
    → let done_tx = executed_in epoch (arrived tx) in
      client_round (round_of (request_of tx buf) epoch) s
      ≡ done (record {
        thread = record {
          tx = done_tx;
          recv_msg = (tcp_sv_receive_msg s.recv_msg bufsiz (some (request_of tx buf))).0;
          send_msg = (create_response_tx_msg done_tx s.send_msg).0;
        };
        action = write (write_request (arrived tx) s.send_msg);
        answer = some (create_response_tx_msg done_tx s.send_msg);
        goes_on = true;
      })
unfolding client_round after_action answer_client respond
client_round-write tx buf s epoch v e =
    let (_, _, positive) = request_received tx tx buf s.recv_msg v in
    rw
      (
        on_message-received tx s.tx buf s.recv_msg s.send_msg v e,
        positive,
        sent_whole (executed_in epoch (arrived tx)) s.send_msg,
      )
      refl

executed_in-carried :
    (tx old : Tx) (epoch : ℕ)
    → record (carried (executed_in epoch (arrived tx)) old) {
      assigned_epoch_id = (executed_in epoch (arrived tx)).assigned_epoch_id;
    }
      ≡ record (carried tx old) { assigned_epoch_id = epoch }
unfolding set_assigned_epoch_id_to_tx raise_tx_complete_flag
executed_in-carried tx old epoch = refl

executed_in-IsTx :
    (tx : Tx) (epoch : ℕ)
    → IsTx tx
    → epoch < 2 ^ 16
    → IsTx (executed_in epoch (arrived tx))
      × ((executed_in epoch (arrived tx)).assigned_epoch_id < 2 ^ 16)
unfolding set_assigned_epoch_id_to_tx raise_tx_complete_flag
executed_in-IsTx tx epoch v h = (
  omega (
    arith, v.replica_id_fits, v.client_id_fits, v.id_fits, v.type_fits, v.key_fits, v.value_fits,
  ),
  h,
)

send_request-sent :
    (rand_r : ℕ → ℕ × ℕ) (info : ClientThreadInfo) (c : Client)
    → let tx = (next_tx rand_r info c).0 in
      ((send_request rand_r info c).1 ≡ create_request_tx_msg tx c.msg)
      × ((send_request rand_r info c).0.send_tx ≡ tx)
unfolding send_request
send_request-sent rand_r info c = (refl, refl)

receive_response-recv_tx :
    (rand_r : ℕ → ℕ × ℕ) (d : Datagram) (c : Client)
    → (receive_response rand_r (some d) c).recv_tx
      ≡ get_info_from_response_tx_msg (tcp_cl_receive_msg c.msg bufsiz (some d)).0 c.recv_tx
unfolding receive_response
receive_response-recv_tx rand_r d c = refl

-- A round of a client whose ids fit a `short` and that only writes, the result of `rand_r` never
-- negative, and the thread of the client interface that receives the request, whatever its variables:
-- if the transaction is executed in an epoch that fits a `short`, and the answer is sent whole, the
-- thread has asked the master for the write of this transaction, answers and goes on, and the client
-- then has received its own transaction, with that epoch.
pub client_round-answered :
    (rand_r : ℕ → ℕ × ℕ) (info : ClientThreadInfo) (c : Client) (s : ClientThread) (epoch : ℕ)
    → IsRandR rand_r
    → IsWriter info
    → epoch < 2 ^ 16
    → let (sent, (msg, len)) = send_request rand_r info c in
      (served : Served) × (answer : Buf) × (size : ℕ) × (client_round
          (round_of (record { bytes = msg; len = len }) epoch)
          s
        ≡ done served)
      × (served.action ≡ write (write_request (arrived sent.send_tx) s.send_msg))
      × (served.answer ≡ some (answer, size))
      × (served.goes_on ≡ true)
      × ((receive_response rand_r (some (record { bytes = answer; len = size })) sent).recv_tx
          ≡ record (carried sent.send_tx sent.recv_tx) { assigned_epoch_id = epoch })
client_round-answered rand_r info c s epoch law v small =
    let (writes, w) = next_tx-IsWrite rand_r law info v c in
    let tx = (next_tx rand_r info c).0 in
    let (request, same) = send_request-sent rand_r info c in
    let sent = (send_request rand_r info c).0 in
    let (fits, fits_epoch) = executed_in-IsTx tx epoch w.fits small in
    rw (request, same)
      (
        _,
        _,
        _,
        client_round-write tx c.msg s epoch w.fits w.typed,
        refl,
        refl,
        refl,
        receive_response-recv_tx rand_r (answer_of (executed_in epoch (arrived tx)) s.send_msg) sent
            ∙ answer_received (executed_in epoch (arrived tx)) sent.recv_tx s.send_msg sent.msg fits
                fits_epoch
            ∙ executed_in-carried tx sent.recv_tx epoch,
      )
