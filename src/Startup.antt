-- ===== src/Startup.antt =====
-- The main programs, master/master.c and slave/slave.c, with utils/configuration.c's record of what the
-- threads of a node share, and what `main` of client/client_time.c sends to the nodes. A string is the
-- list of its characters, without the NUL. The duration of an epoch, a `double`, and the CSV log are left
-- out; `pthread_create` succeeds.
pub mod Arguments
pub mod Finish
pub mod Idle
pub mod Spawn
mod Tests
use graduation_research_prog.Base.{
  ℕ, zero, suc, ◌+◌, ◌-◌, ◌<◌, ◌==◌, Bool, true, false, ltb, ◌&&◌, if◌then◌else◌, Option, none,
  some, List, [], ◌∷◌, length,
}
use graduation_research_prog.Words.{int_minus_one}
use graduation_research_prog.Outcome.{Outcome, done, exit, waiting}
use graduation_research_prog.Bytes.{Buf}
use graduation_research_prog.Tx.{Tx}
use graduation_research_prog.Batch.{Batch}
use graduation_research_prog.Network.{Datagram, Sent, udp_sv_receive_msg}
use graduation_research_prog.Config.{
  Method, get_port_finish_from_client, get_client_interface_ipaddr,
}
use graduation_research_prog.Config.Constants.{storage_size, replica_num}
use graduation_research_prog.Log.{File, create_log_info}
use graduation_research_prog.Storage.{Storage, new_storage}

-- `Config`. The queues are lists, oldest first, and `db_client_info_set` is not initialised.
pub record NodeConfig : Type 0 where
  pub exp : Method
  pub system_finish_request : ℕ
  pub my_replica_id : ℕ
  pub storage : Storage
  pub batch_log : Option File
  pub write_tx_buffer : List Batch
  pub read_tx_buffer : List Tx
  pub db_client_info_set : List (Option Tx)

-- `raw` is what `malloc` returns, and `file` the log file from before, if there is one
unfoldable pub create_config :
    Method → (my_replica_id : ℕ) → (raw : List (Option Tx)) → (file : Option File) → NodeConfig
unfolding new_storage create_log_info
create_config exp my_replica_id raw file = record {
  exp = exp;
  system_finish_request = 0;
  my_replica_id = my_replica_id;
  storage = new_storage storage_size;
  batch_log = create_log_info file;
  write_tx_buffer = [];
  read_tx_buffer = [];
  db_client_info_set = raw;
}

unfoldable pub set_system_finish_request : NodeConfig → NodeConfig
set_system_finish_request config = record config { system_finish_request = 1 }

-- the master waits for a client's start, and so for another value than a slave
unfoldable pub master_config : Method → (raw : List (Option Tx)) → (file : Option File) → NodeConfig
master_config exp raw file = record (create_config exp 0 raw file) {
  system_finish_request = int_minus_one;
}

-- "start" and "finish"
abbrev pub start_text : List ℕ
start_text = 115 ∷ 116 ∷ 97 ∷ 114 ∷ 116 ∷ []

abbrev pub finish_text : List ℕ
finish_text = 102 ∷ 105 ∷ 110 ∷ 105 ∷ 115 ∷ 104 ∷ []

-- `strcmp(msg, text) == 0` from the index `i` on
unfoldable pub is_text : Buf → ℕ → List ℕ → Bool
is_text msg i [] = msg i == 0
is_text msg i (c ∷ text) = msg i == c && is_text msg (suc i) text

-- `char msg[] = text`, as far as it was written
unfoldable pub text_bytes : List ℕ → Buf
text_bytes [] i = 0
text_bytes (c ∷ text) zero = c
text_bytes (c ∷ text) (suc i) = text_bytes text i

-- One round of the master's loop: what is in the buffer, the record, and whether the loop goes on. A
-- receive that fails leaves the buffer, which is looked at again.
unfoldable pub master_finish_step : Option Datagram → Buf → NodeConfig → Buf × NodeConfig × Bool
master_finish_step event recv_msg config =
    let (msg, len) = udp_sv_receive_msg recv_msg 256 event in
    if is_text msg 0 finish_text
    then (msg, config, false)
    else if is_text msg 0 start_text
    then (msg, record config { system_finish_request = 0 }, true)
    else (msg, config, true)

-- the same of `client_interface_startup`, the loop of a slave, which knows no start
unfoldable pub slave_finish_step : Option Datagram → Buf → NodeConfig → Buf × NodeConfig × Bool
slave_finish_step event recv_msg config =
    let (msg, len) = udp_sv_receive_msg recv_msg 256 event in
    if is_text msg 0 finish_text then (msg, config, false) else (msg, config, true)

-- The loop, on what its receives find, and what follows it. It is still running when these are used up.
unfoldable pub finish_loop :
    (Option Datagram → Buf → NodeConfig → Buf × NodeConfig × Bool)
    → List (Option Datagram)
    → Buf
    → NodeConfig
    → Outcome NodeConfig
finish_loop step [] recv_msg config = waiting
finish_loop step (event ∷ events) recv_msg config =
    let (msg, after, goes_on) = step event recv_msg config in
    let rest = finish_loop step events msg after in
    if goes_on then rest else done (record after { system_finish_request = 1 })

-- What `main` of client_time.c sends: the start to the master, and when the time is over the finish to
-- each node, in the order of the replicas.
unfoldable pub start_message : Sent
start_message = record {
  ipaddr = get_client_interface_ipaddr 0;
  port = get_port_finish_from_client 0;
  msg = text_bytes start_text;
  len = length start_text + 1;
}

unfoldable pub finish_message : ℕ → Sent
finish_message i = record {
  ipaddr = get_client_interface_ipaddr i;
  port = get_port_finish_from_client i;
  msg = text_bytes finish_text;
  len = length finish_text + 1;
}

unfoldable pub finish_messages : (k i : ℕ) → List Sent
finish_messages zero i = []
finish_messages (suc k) i = finish_message i ∷ finish_messages k (suc i)
