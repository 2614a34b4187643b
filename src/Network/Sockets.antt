-- ===== src/Network/Sockets.antt =====
-- network/tcp/*.c and the rest of network/udp/*.c: opening and closing sockets, and one message over a
-- connection. What the kernel answers is an argument; which of its calls were made, and on what, is
-- part of the result. The text of the error message is left out.
use graduation_research_prog.Base.{
  ℕ, ◌==◌, not, if◌then◌else◌, min, Option, none, some, List, [], ◌∷◌, ◌++◌,
}
use graduation_research_prog.Words.{int_minus_one, int_lt}
use graduation_research_prog.Bytes.{Buf, copy}
use graduation_research_prog.Network.{Datagram}

-- the calls that the wrappers make
pub data Call : Type 0 where
  socket_call : (sd : ℕ) → Call
  bind_call : (sd sv_port : ℕ) → Call
  listen_call : (sd backlog : ℕ) → Call
  ioctl_call : (sd blocking : ℕ) → Call
  connect_call : (sd : ℕ) → Call
  shutdown_call : (sd : ℕ) → Call
  close_call : (sd : ℕ) → Call

-- What the kernel answers to each of the calls, as the `int` that the call returns.
pub record Kernel : Type 0 where
  pub socket : ℕ
  pub bind : ℕ
  pub listen : ℕ
  pub ioctl : ℕ

-- What a wrapper leaves behind: the descriptor in `info`, its result, and the calls it made.
pub record Opened : Type 0 where
  pub sd : ℕ
  pub ret : ℕ
  pub calls : List Call

unfoldable pub tcp_sv_socket_init : Kernel → (sv_port backlog : ℕ) → Opened
tcp_sv_socket_init k sv_port backlog =
    let sd = k.socket in
    let opening = socket_call sd ∷ [] in
    let binding = opening ++ (bind_call sd sv_port ∷ []) in
    let listening = binding ++ (listen_call sd backlog ∷ []) in
    if int_lt sd 0
    then record { sd = sd; ret = int_minus_one; calls = opening }
    else if not (k.bind == 0)
    then record { sd = sd; ret = int_minus_one; calls = binding }
    else if not (k.listen == 0)
    then record { sd = sd; ret = int_minus_one; calls = listening }
    else record { sd = sd; ret = 0; calls = listening }

unfoldable pub tcp_cl_socket_init : Kernel → Opened
tcp_cl_socket_init k =
    let sd = k.socket in
    let opening = socket_call sd ∷ [] in
    if int_lt sd 0
    then record { sd = sd; ret = int_minus_one; calls = opening }
    else record { sd = sd; ret = 0; calls = opening }

-- `blocking` is 0 for a socket whose receives block
unfoldable pub udp_sv_socket_init : Kernel → (sv_port blocking : ℕ) → Opened
udp_sv_socket_init k sv_port blocking =
    let sd = k.socket in
    let opening = socket_call sd ∷ [] in
    let binding = opening ++ (bind_call sd sv_port ∷ []) in
    let setting = binding ++ (ioctl_call sd blocking ∷ []) in
    if int_lt sd 0
    then record { sd = sd; ret = int_minus_one; calls = opening }
    else if not (k.bind == 0)
    then record { sd = sd; ret = int_minus_one; calls = binding }
    else if k.ioctl == int_minus_one
    then record { sd = sd; ret = int_minus_one; calls = setting }
    else record { sd = sd; ret = 0; calls = setting }

unfoldable pub udp_cl_socket_init : Kernel → (blocking : ℕ) → Opened
udp_cl_socket_init k blocking =
    let sd = k.socket in
    let opening = socket_call sd ∷ [] in
    let setting = opening ++ (ioctl_call sd blocking ∷ []) in
    if int_lt sd 0
    then record { sd = sd; ret = int_minus_one; calls = opening }
    else if k.ioctl == int_minus_one
    then record { sd = sd; ret = int_minus_one; calls = setting }
    else record { sd = sd; ret = 0; calls = setting }

-- The descriptor is closed unless it is 0, whether the socket was opened or not.
abbrev close_unless_zero : ℕ → List Call
close_unless_zero sd = if not (sd == 0) then close_call sd ∷ [] else []

unfoldable pub tcp_sv_socket_deinit : ℕ → List Call
tcp_sv_socket_deinit listen_sd = shutdown_call listen_sd ∷ close_unless_zero listen_sd

unfoldable pub tcp_cl_socket_deinit : ℕ → List Call
tcp_cl_socket_deinit sd = close_unless_zero sd

unfoldable pub udp_sv_socket_deinit : ℕ → List Call
udp_sv_socket_deinit sd = close_unless_zero sd

unfoldable pub udp_cl_socket_deinit : ℕ → List Call
udp_cl_socket_deinit sd = close_unless_zero sd

-- `connect` and `accept`: the result, given what the kernel answers
unfoldable pub tcp_cl_connect : (answer : ℕ) → ℕ
tcp_cl_connect answer = if not (answer == 0) then int_minus_one else 0

unfoldable pub tcp_sv_accept : (answer : ℕ) → ℕ
tcp_sv_accept answer = if int_lt answer 0 then int_minus_one else answer

-- One `recv` on a connection: `none` is one that failed, and what it gives otherwise is what came in
-- of the stream.
unfoldable pub tcp_sv_receive_msg : Buf → ℕ → Option Datagram → Buf × ℕ
unfolding copy
tcp_sv_receive_msg buff len none = (buff, int_minus_one)
tcp_sv_receive_msg buff len (some d) = (copy buff 0 d.bytes (min d.len len), min d.len len)

unfoldable pub tcp_cl_receive_msg : Buf → ℕ → Option Datagram → Buf × ℕ
unfolding copy
tcp_cl_receive_msg recvmsg len none = (recvmsg, int_minus_one)
tcp_cl_receive_msg recvmsg len (some d) = (copy recvmsg 0 d.bytes (min d.len len), min d.len len)

unfoldable pub udp_cl_retrun_recv_msg : Buf → ℕ → Option Datagram → Buf × ℕ
unfolding copy
udp_cl_retrun_recv_msg msg msg_size none = (msg, int_minus_one)
udp_cl_retrun_recv_msg msg msg_size (some d) =
    (copy msg 0 d.bytes (min d.len msg_size), min d.len msg_size)

-- One `send` of `len` bytes, of which the kernel took `rc`, an `int`: TCP returns 0, UDP the length.
unfoldable pub tcp_sv_send_msg : (rc len : ℕ) → ℕ
tcp_sv_send_msg rc len = if rc == len then 0 else int_minus_one

unfoldable pub tcp_cl_send_msg : (rc len : ℕ) → ℕ
tcp_cl_send_msg rc len = if rc == len then 0 else int_minus_one

unfoldable pub udp_sv_return_send_msg : (rc send_msg_len : ℕ) → ℕ
udp_sv_return_send_msg rc send_msg_len = if rc == send_msg_len then rc else int_minus_one

unfoldable pub udp_cl_send_msg : (rc len : ℕ) → ℕ
udp_cl_send_msg rc len = if rc == len then rc else int_minus_one
