-- ===== src/ClientInterface/Threads.antt =====
-- client_interface/client_interface.c: the loops of the client interface. What the kernel answers, what
-- other threads have written and whether a time is over are arguments; the CSV log is left out.
use graduation_research_prog.Base.{
  ℕ, zero, suc, ◌==◌, Bool, true, false, if◌then◌else◌, Option, none, some, List, [], ◌∷◌,
}
use graduation_research_prog.Words.{int_lt}
use graduation_research_prog.Outcome.{Outcome, done, exit, waiting, and_then}
use graduation_research_prog.Bytes.{Buf}
use graduation_research_prog.Tx.{Tx}
use graduation_research_prog.Network.{Datagram, Sent}
use graduation_research_prog.Network.Sockets.{tcp_sv_receive_msg, tcp_sv_send_msg, tcp_sv_accept}
use graduation_research_prog.Master.Receiver.{bufsiz}
use graduation_research_prog.ClientInterface.{
  Action, ignore, write, read, finish, wait, write_request, on_message, on_ack, respond,
}

-- The connections of the clients: one thread for each, in the order in which they come. The process
-- ends at an `accept` that fails; the threads can be created.
unfoldable pub accept_clients : ℕ → List ℕ → Outcome (List ℕ)
accept_clients zero answers = done []
accept_clients (suc k) [] = waiting
accept_clients (suc k) (answer ∷ answers) =
    let rest = accept_clients k answers in
    let client_connected_sd = tcp_sv_accept answer in
    if int_lt client_connected_sd 0
    then exit
    else and_then rest (λ sds. done (client_connected_sd ∷ sds))

-- the variables of the thread of one client
pub record ClientThread : Type 0 where
  pub tx : Tx
  pub recv_msg : Buf
  pub send_msg : Buf

-- What one round is given: what the receive finds, what the transaction is when the wait for its flag is
-- over, whether that is because the system is to finish, and what `send` returns.
pub record Round : Type 0 where
  pub received : Option Datagram
  pub executed : Tx → Tx
  pub finish_requested : Bool
  pub rc : ℕ

-- What one round comes to: the variables, what the thread did, the answer to the client, and whether
-- the loop goes on.
pub record Served : Type 0 where
  pub thread : ClientThread
  pub action : Action
  pub answer : Option (Buf × ℕ)
  pub goes_on : Bool

-- the end of a round with a transaction: its answer, unless the system is to finish
unfoldable pub answer_client : Round → ClientThread → Action → Outcome Served
answer_client r s action =
    let tx = r.executed s.tx in
    let (msg, len) = respond tx s.send_msg in
    if r.finish_requested
    then done
        (record { thread = record s { tx = tx }; action = action; answer = none; goes_on = false })
    else if int_lt (tcp_sv_send_msg r.rc len) 0
    then exit
    else done (record {
      thread = record s { tx = tx; send_msg = msg };
      action = action;
      answer = some (msg, len);
      goes_on = true;
    })

unfoldable pub after_action : Round → ClientThread → Action → Outcome Served
after_action r s ignore =
    done (record { thread = s; action = ignore; answer = none; goes_on = true })
after_action r s finish =
    done (record { thread = s; action = finish; answer = none; goes_on = false })
after_action r s (write sent) = answer_client r s (write sent)
after_action r s (read tx) = answer_client r s (read tx)
after_action r s wait = answer_client r s wait

-- one round of the loop of `client_thread`
unfoldable pub client_round : Round → ClientThread → Outcome Served
client_round r s =
    let (msg, len) = tcp_sv_receive_msg s.recv_msg bufsiz r.received in
    let (tx, action) = on_message msg s.send_msg s.tx in
    if int_lt len 0 then exit else after_action r (record s { tx = tx; recv_msg = msg }) action

-- What the loops of `request_write_tx` are given for one round of the inner loop: what the two tests
-- read of `system_finish_request`, what the receive finds, and whether the timeout has passed.
pub record Look : Type 0 where
  pub outer_request : ℕ
  pub inner_request : ℕ
  pub event : Option Datagram
  pub overtime : Bool

-- One round of the inner loop. The result is the buffer, whether the loop of sending is to begin
-- again, and whether the loops are over.
unfoldable pub receive_ack : Tx → Look → Buf → Buf × Bool × Bool
receive_ack tx look recv_msg =
    let (msg, acked) = on_ack tx recv_msg look.event in
    if look.inner_request == 0 then (msg, look.overtime, acked) else (recv_msg, true, false)

-- The loops of `request_write_tx`, from its outer test on or from its inner one: what was sent until
-- they are over. They are still running when the rounds are used up.
unfoldable pub request_rounds : Tx → Sent → (sending : Bool) → List Look → Buf → Outcome (List Sent)
request_rounds tx request sending [] recv_msg = waiting
request_rounds tx request sending (look ∷ looks) recv_msg =
    let (msg, again, over) = receive_ack tx look recv_msg in
    let rest = request_rounds tx request again looks msg in
    let goes_on = if over then done [] else rest in
    if sending
    then if look.outer_request == 1
      then done []
      else and_then goes_on (λ sent. done (request ∷ sent))
    else goes_on

-- `request_write_tx`: everything that it sends
unfoldable pub request_write_tx : Tx → (send_msg recv_msg : Buf) → List Look → Outcome (List Sent)
request_write_tx tx send_msg recv_msg looks =
    request_rounds tx (write_request tx send_msg) true looks recv_msg
