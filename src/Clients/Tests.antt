-- ===== src/Clients/Tests.antt =====
-- Examples of a client.
use graduation_research_prog.Base.{
  ℕ, ◌+◌, ◌*◌, ◌%◌, ◌^◌, ◌≡◌, ◌≤◌, none, true, some, [], length, get_elem?, arith,
}
use graduation_research_prog.Outcome.{done}
use graduation_research_prog.Bytes.{Buf}
use graduation_research_prog.Tx.{Tx}
use graduation_research_prog.Samples.{tx_of, zeros}
use graduation_research_prog.Message.BatchBlocks.{arrived}
use graduation_research_prog.ClientInterface.{write, finish, write_request, on_message}
use graduation_research_prog.Clients.{
  ClientThreadInfo, Client, client_startup, send_request, receive_response, client_thread_info,
  client_thread_txnum, client_thread_time, get_random,
}
use graduation_research_prog.Clients.Requests.{
  IsRandR, IsWrite, client_thread_info-IsWriter, get_random-within,
}
use graduation_research_prog.Message.Laws.{carried}
use graduation_research_prog.ClientInterface.Threads.{ClientThread, Served, client_round}
use graduation_research_prog.Clients.Answered.{round_of, client_round-answered}
use graduation_research_prog.Clients.Served.{request_served, finish_served}
use graduation_research_prog.Clients.Timed.{over_after, client_thread_time-txnum}

-- a generator of the kind that `rand_r` is
abbrev rand_r : ℕ → ℕ × ℕ
rand_r seed = ((1103515245 * seed + 12345) % 2 ^ 31, (1103515245 * seed + 12345) % 2 ^ 32)

rand_r-IsRandR : IsRandR rand_r
rand_r-IsRandR seed = omega arith

abbrev info : ClientThreadInfo
info = client_thread_info 1 2

-- the second of two transactions, while no answer comes in
request_served_example :
    (tx : Tx) × (request : Buf) × (len : ℕ) × (get_elem?
        (client_thread_txnum rand_r info 2 (λ _. none) (tx_of 0) zeros)
        1
      ≡ some (request, len))
    × (on_message request zeros (tx_of 0) ≡ (arrived tx, write (write_request (arrived tx) zeros)))
    × IsWrite info 1 tx
request_served_example =
    request_served rand_r info 2 1 (λ _. none) (tx_of 0) (tx_of 0) zeros zeros rand_r-IsRandR
      (client_thread_info-IsWriter 1 2) (omega arith) (omega arith)

finish_served_example :
    (request : Buf) × (len : ℕ) × (length
        (client_thread_txnum rand_r info 2 (λ _. none) (tx_of 0) zeros)
      ≡ 3)
    × (get_elem? (client_thread_txnum rand_r info 2 (λ _. none) (tx_of 0) zeros) 2
        ≡ some (request, len))
    × ((on_message request zeros (tx_of 0)).1 ≡ finish)
finish_served_example =
    finish_served rand_r info 2 (λ _. none) (tx_of 0) (tx_of 0) zeros zeros (omega arith)

client_thread_time-txnum_example :
    client_thread_time rand_r info (over_after (λ _. none) 0 2 []) (tx_of 0) zeros
    ≡ done (client_thread_txnum rand_r info 3 (λ _. none) (tx_of 0) zeros)
client_thread_time-txnum_example =
    client_thread_time-txnum rand_r info (λ _. none) [] 2 (tx_of 0) zeros (omega arith)

get_random-within_example :
    (10 ≤ (get_random rand_r 10 12 7).0) × ((get_random rand_r 10 12 7).0 ≤ 12)
get_random-within_example =
    get_random-within rand_r rand_r-IsRandR 10 12 7 (omega arith) (omega arith)

abbrev client : Client
client = client_startup rand_r info (tx_of 0) zeros

abbrev thread : ClientThread
thread = record { tx = tx_of 0; recv_msg = zeros; send_msg = zeros }

-- executed in epoch 4
client_round-answered_example :
    let (sent, (msg, len)) = send_request rand_r info client in
    (served : Served) × (answer : Buf) × (size : ℕ) × (client_round
        (round_of (record { bytes = msg; len = len }) 4)
        thread
      ≡ done served)
    × (served.action ≡ write (write_request (arrived sent.send_tx) zeros))
    × (served.answer ≡ some (answer, size))
    × (served.goes_on ≡ true)
    × ((receive_response rand_r (some (record { bytes = answer; len = size })) sent).recv_tx
        ≡ record (carried sent.send_tx sent.recv_tx) { assigned_epoch_id = 4 })
client_round-answered_example =
    client_round-answered rand_r info client thread 4 rand_r-IsRandR
      (client_thread_info-IsWriter 1 2) (omega arith)
