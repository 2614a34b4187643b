-- ===== src/Clients/Served.antt =====
-- What the client interface makes of what a client sends.
use graduation_research_prog.Base.{
  ℕ, suc, ◌<◌, ◌^◌, ◌≡◌, refl, Option, some, length, get_elem?, arith,
}
use graduation_research_prog.Bytes.{Buf}
use graduation_research_prog.Tx.{Tx, init_tx, modify_finish_request, finish_request}
use graduation_research_prog.Tx.Laws.{IsTx}
use graduation_research_prog.Network.{Datagram}
use graduation_research_prog.Message.{create_request_tx_msg}
use graduation_research_prog.Message.BatchBlocks.{arrived}
use graduation_research_prog.Message.Laws.{request_tx_roundtrip, carried}
use graduation_research_prog.ClientInterface.{write, finish, write_request, on_message, action_of}
use graduation_research_prog.ClientInterface.Journey.{on_message-write}
use graduation_research_prog.Clients.{ClientThreadInfo, client_thread_txnum}
use graduation_research_prog.Clients.Requests.{
  IsRandR, IsWriter, IsWrite, txnum-request, txnum-finish,
}

-- A client whose ids fit a `short` and that only writes, for a number of transactions that is not
-- negative, and the result of `rand_r` never negative, whatever it is answered: its request `i` below that number is received by
-- the client interface as a write transaction with the ids of the client, the number `i` in 16 bits,
-- the value -1 and a key that the storage has, and the client interface goes on with the request to the
-- master.
pub request_served :
    (rand_r : ℕ → ℕ × ℕ) (info : ClientThreadInfo) (tx_num i : ℕ) (answers : ℕ → Option Datagram)
    (raw old : Tx) (msg send_msg : Buf)
    → IsRandR rand_r
    → IsWriter info
    → tx_num < 2 ^ 31
    → i < tx_num
    → (tx : Tx) × (request : Buf) × (len : ℕ) × (get_elem?
          (client_thread_txnum rand_r info tx_num answers raw msg)
          i
        ≡ some (request, len))
      × (on_message request send_msg old
          ≡ (arrived tx, write (write_request (arrived tx) send_msg)))
      × IsWrite info i tx
request_served rand_r info tx_num i answers raw old msg send_msg law v small h =
    let (tx, buf, at, w) = txnum-request rand_r info tx_num i answers raw msg law v small h in
    (
      tx,
      (create_request_tx_msg tx buf).0,
      (create_request_tx_msg tx buf).1,
      at,
      on_message-write tx old buf send_msg w.fits w.typed,
      w,
    )

modify_finish_request-typed :
    (old : Tx)
    → IsTx (modify_finish_request old) × ((modify_finish_request old).type ≡ finish_request)
unfolding modify_finish_request init_tx
modify_finish_request-typed old = (omega arith, refl)

action_of-finish :
    (tx : Tx) (send_msg : Buf) → tx.type ≡ finish_request → action_of tx send_msg ≡ finish
unfolding action_of
action_of-finish tx send_msg e = rw e refl

on_message-finish :
    (tx old : Tx) (buf send_msg : Buf)
    → IsTx tx
    → tx.type ≡ finish_request
    → (on_message (create_request_tx_msg tx buf).0 send_msg old).1 ≡ finish
unfolding on_message
on_message-finish tx old buf send_msg v e =
    let (typed, got, len) = request_tx_roundtrip tx (init_tx old) buf v in
    rw (typed, got) (action_of-finish (carried tx (init_tx old)) send_msg e)

-- A client for a number of transactions that is not negative, whatever it is answered: it sends one
-- request more than that, so its loop ends, and the last one makes the client interface's thread end.
pub finish_served :
    (rand_r : ℕ → ℕ × ℕ) (info : ClientThreadInfo) (tx_num : ℕ) (answers : ℕ → Option Datagram)
    (raw old : Tx) (msg send_msg : Buf)
    → tx_num < 2 ^ 31
    → (request : Buf) × (len : ℕ) × (length (client_thread_txnum rand_r info tx_num answers raw msg)
        ≡ suc tx_num)
      × (get_elem? (client_thread_txnum rand_r info tx_num answers raw msg) tx_num
          ≡ some (request, len))
      × ((on_message request send_msg old).1 ≡ finish)
finish_served rand_r info tx_num answers raw old msg send_msg small =
    let (size, (last, buf, at)) = txnum-finish rand_r info tx_num answers raw msg small in
    let (fits, typed) = modify_finish_request-typed last in
    (
      (create_request_tx_msg (modify_finish_request last) buf).0,
      (create_request_tx_msg (modify_finish_request last) buf).1,
      size,
      at,
      on_message-finish (modify_finish_request last) old buf send_msg fits typed,
    )
