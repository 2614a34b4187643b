-- ===== src/Network/Laws.antt =====
-- What a receive leaves in the buffer.
use graduation_research_prog.Base.{ℕ, ◌<◌, ◌≤◌, ◌≡◌, min, Option, none, some, arith}
use graduation_research_prog.Bytes.{Buf, copy}
use graduation_research_prog.Bytes.Access.{IsBytes, copy-IsBytes}
use graduation_research_prog.Network.{Datagram, udp_sv_receive_msg}

-- the array that was received is one of bytes
abbrev pub IsDatagram : Option Datagram → Type 0
IsDatagram none = Unit
IsDatagram (some d) = IsBytes d.bytes

pub receive-IsBytes :
    (msg : Buf) (size : ℕ) (event : Option Datagram)
    → IsBytes msg
    → IsDatagram event
    → IsBytes (udp_sv_receive_msg msg size event).0
unfolding udp_sv_receive_msg
receive-IsBytes msg size none v w = v
receive-IsBytes msg size (some d) v w = copy-IsBytes msg 0 d.bytes (min d.len size) v w

-- A datagram that fits the buffer is received whole.
pub receive-same :
    (msg : Buf) (size : ℕ) (d : Datagram) (i : ℕ)
    → d.len ≤ size
    → i < d.len
    → (udp_sv_receive_msg msg size (some d)).0 i ≡ d.bytes i
unfolding udp_sv_receive_msg copy
receive-same msg size d i fits h = ground arith
