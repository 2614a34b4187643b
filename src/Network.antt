-- ===== src/Network.antt =====
-- network/udp/udp_server.c and network/udp/udp_client.c: what the program makes of `recvfrom` and
-- `sendto`. Which datagrams arrive is the argument of a receive; what is sent is a value that the
-- caller returns.
pub mod Laws
pub mod Lifetime
pub mod Sockets
mod Tests
use graduation_research_prog.Base.{ℕ, min, Option, none, some}
use graduation_research_prog.Words.{int_minus_one}
use graduation_research_prog.Bytes.{Buf, copy}

pub record Datagram : Type 0 where
  pub bytes : Buf
  pub len : ℕ

-- The buffer of `msg_size` bytes and the result. `none` is a `recvfrom` that failed, or that found
-- nothing on a socket that does not block. A datagram that is too long is cut off.
unfoldable pub udp_sv_receive_msg : Buf → ℕ → Option Datagram → Buf × ℕ
unfolding copy
udp_sv_receive_msg msg msg_size none = (msg, int_minus_one)
udp_sv_receive_msg msg msg_size (some d) =
    (copy msg 0 d.bytes (min d.len msg_size), min d.len msg_size)

-- One `udp_cl_send_msg`: where to, and which `len` bytes. `none` stands for a port or an address
-- that the program has not determined.
pub record Sent : Type 0 where
  pub ipaddr : Option ℕ
  pub port : Option ℕ
  pub msg : Buf
  pub len : ℕ
