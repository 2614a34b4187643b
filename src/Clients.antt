-- ===== src/Clients.antt =====
-- client/client_txnum.c and client/client_time.c: a client, the thread that sends one transaction after
-- another to the client interface of its replica and waits for each answer. The two files differ in
-- what ends the loop: a number of transactions, or a time.
-- `rand_r` is the C library's: it takes a seed, and gives a result and the next seed. What each `recv`
-- finds is an argument, and so is the comparison of the clock with the end of the time. The CSV file
-- and the measured times are left out.
pub mod Answered
pub mod Requests
pub mod Served
pub mod Timed
mod Tests
use graduation_research_prog.Base.{
  ℕ, zero, suc, ◌+◌, ◌-◌, ◌*◌, ◌%◌, ◌^◌, Bool, ltb, if◌then◌else◌, Option, List, [], ◌∷◌,
}
use graduation_research_prog.Words.{short_minus_one, short_of_int, int_lt, int_inc}
use graduation_research_prog.Outcome.{Outcome, done, waiting, and_then}
use graduation_research_prog.Bytes.{Buf}
use graduation_research_prog.Tx.{
  Tx, init_tx, create_tx, set_client_info_to_tx, modify_to_write_tx, modify_to_read_tx,
  modify_finish_request,
}
use graduation_research_prog.Network.{Datagram}
use graduation_research_prog.Network.Sockets.{tcp_cl_receive_msg}
use graduation_research_prog.Config.Constants.{storage_size}
use graduation_research_prog.Message.{create_request_tx_msg, get_info_from_response_tx_msg}
use graduation_research_prog.Master.Receiver.{bufsiz}

-- `client_thread_info_t`, without the file and the times
pub record ClientThreadInfo : Type 0 where
  pub replica_id : ℕ
  pub client_id : ℕ
  pub write_rate : ℕ
  pub seed : ℕ

-- what `main` hands to the thread of one client
unfoldable pub client_thread_info : (replica_id client_id : ℕ) → ClientThreadInfo
client_thread_info replica_id client_id = record {
  replica_id = short_of_int replica_id;
  client_id = short_of_int client_id;
  write_rate = 100;
  seed = (replica_id * 100 + client_id) % 2 ^ 32;
}

-- the variables of the thread
pub record Client : Type 0 where
  pub seed : ℕ
  pub tx_id : ℕ
  pub send_tx : Tx
  pub recv_tx : Tx
  pub msg : Buf
  pub write_num : ℕ

-- a message that was sent: its bytes and its length
abbrev pub Request : Type 0
Request = Buf × ℕ

-- `a % b` on `int`, for a `b` that is positive: the sign is that of `a`
abbrev pub int_rem : ℕ → ℕ → ℕ
int_rem a b = if ltb a (2 ^ 31) then a % b else (2 ^ 32 - (2 ^ 32 - a) % b) % 2 ^ 32

module _ (rand_r : ℕ → ℕ × ℕ) where
  -- `min + rand_r(seed) % (max - min + 1)`
  unfoldable pub get_random : (min max seed : ℕ) → ℕ × ℕ
  get_random min max seed =
      let (random, next_seed) = rand_r seed in
      ((min + int_rem random (int_inc ((max + (2 ^ 32 - min)) % 2 ^ 32))) % 2 ^ 32, next_seed)

  -- the transaction of a round, and the seed after it
  unfoldable pub next_tx : ClientThreadInfo → Client → Tx × ℕ × Bool
  unfolding get_random init_tx set_client_info_to_tx modify_to_write_tx modify_to_read_tx
  next_tx info c =
      let tx =
        set_client_info_to_tx (init_tx c.send_tx) info.replica_id info.client_id
          (short_of_int c.tx_id) in
      let (type, seed) = get_random 0 99 c.seed in
      let (key, next_seed) = get_random 0 (storage_size - 1) seed in
      let writes = int_lt type info.write_rate in
      (
        if writes
            then modify_to_write_tx tx (short_of_int key) short_minus_one
            else modify_to_read_tx tx (short_of_int key),
        next_seed,
        writes,
      )

  -- the request of a round
  unfoldable pub send_request : ClientThreadInfo → Client → Client × Request
  unfolding next_tx create_request_tx_msg init_tx
  send_request info c =
      let (tx, seed, writes) = next_tx info c in
      let (msg, len) = create_request_tx_msg tx c.msg in
      (
        record c {
          seed = seed;
          send_tx = tx;
          recv_tx = init_tx c.recv_tx;
          msg = msg;
          write_num = if writes then int_inc c.write_num else c.write_num;
        },
        (msg, len),
      )

  -- the answer, whether or not the receive has failed
  unfoldable pub receive_response : Option Datagram → Client → Client
  unfolding tcp_cl_receive_msg get_info_from_response_tx_msg
  receive_response event c =
      let (msg, len) = tcp_cl_receive_msg c.msg bufsiz event in
      record c { msg = msg; recv_tx = get_info_from_response_tx_msg msg c.recv_tx }

  unfoldable pub next_round : Client → Client
  next_round c = record c { tx_id = int_inc c.tx_id }

  -- the request with which the client ends
  unfoldable pub finish_client : Client → Client × Request
  unfolding modify_finish_request create_request_tx_msg
  finish_client c =
      let tx = modify_finish_request c.send_tx in
      let (msg, len) = create_request_tx_msg tx c.msg in
      (record c { send_tx = tx; msg = msg }, (msg, len))

  -- the thread before its loop; `raw` is what `malloc` returns, and `msg` is not initialised
  unfoldable pub client_startup : ClientThreadInfo → (raw : Tx) → (msg : Buf) → Client
  unfolding create_tx
  client_startup info raw msg = record {
    seed = info.seed;
    tx_id = 0;
    send_tx = create_tx raw;
    recv_tx = create_tx raw;
    msg = msg;
    write_num = 0;
  }

  -- `k` rounds of client_txnum.c and the end: what was sent, in order. `answers` is what the receive of
  -- each round finds.
  unfoldable pub txnum_rounds :
      ClientThreadInfo → (k : ℕ) → (answers : ℕ → Option Datagram) → Client → List Request
  unfolding finish_client send_request receive_response next_round
  txnum_rounds info zero answers c = (finish_client c).1 ∷ []
  txnum_rounds info (suc k) answers c =
      let (sent, request) = send_request info c in
      request ∷ txnum_rounds info k answers (next_round (receive_response (answers c.tx_id) sent))

  -- `client_thread` of client_txnum.c: none but the last request for a `tx_num` that is not positive
  unfoldable pub client_thread_txnum :
      ClientThreadInfo
      → (tx_num : ℕ) → (answers : ℕ → Option Datagram) → (raw : Tx) → (msg : Buf) → List Request
  unfolding txnum_rounds client_startup
  client_thread_txnum info tx_num answers raw msg =
      txnum_rounds info (if ltb tx_num (2 ^ 31) then tx_num else 0) answers
        (client_startup info raw msg)

  -- The loop of client_time.c. Each round has what its receive finds, and whether the time was over
  -- then; the thread is still in its loop when the rounds are used up.
  unfoldable pub time_rounds :
      ClientThreadInfo → List (Option Datagram × Bool) → Client → Outcome (List Request)
  unfolding finish_client send_request receive_response next_round
  time_rounds info [] c = waiting
  time_rounds info ((answer, over) ∷ rounds) c =
      let (sent, request) = send_request info c in
      let heard = receive_response answer sent in
      let rest = time_rounds info rounds (next_round heard) in
      if over
      then done (request ∷ (finish_client heard).1 ∷ [])
      else and_then rest (λ requests. done (request ∷ requests))

  unfoldable pub client_thread_time :
      ClientThreadInfo
      → List (Option Datagram × Bool)
      → (raw : Tx) → (msg : Buf) → Outcome (List Request)
  unfolding time_rounds client_startup
  client_thread_time info rounds raw msg = time_rounds info rounds (client_startup info raw msg)
