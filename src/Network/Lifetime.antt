-- ===== src/Network/Lifetime.antt =====
-- From the opening of a socket to its end, whichever calls of the kernel fail.
use graduation_research_prog.Base.{
  ℕ, ◌≡◌, ◌≢◌, ◌==◌, Bool, true, false, not, ◌&&◌, if◌then◌else◌, List, [], ◌∷◌, ◌++◌, arith,
}
use graduation_research_prog.Words.{int_lt}
use graduation_research_prog.Network.Sockets.{
  Call, socket_call, bind_call, listen_call, ioctl_call, connect_call, shutdown_call, close_call,
  Kernel, tcp_sv_socket_init, tcp_cl_socket_init, udp_sv_socket_init, udp_cl_socket_init,
  tcp_sv_socket_deinit, tcp_cl_socket_deinit, udp_sv_socket_deinit, udp_cl_socket_deinit,
}

-- Is the descriptor open after these calls, if it was (or was not) before? A `socket` that fails opens
-- none.
unfoldable pub open_after : (sd : ℕ) → Bool → List Call → Bool
open_after sd was [] = was
open_after sd was (socket_call s ∷ calls) =
    open_after sd (if s == sd && not (int_lt s 0) then true else was) calls
open_after sd was (close_call s ∷ calls) = open_after sd (if s == sd then false else was) calls
open_after sd was (bind_call s p ∷ calls) = open_after sd was calls
open_after sd was (listen_call s b ∷ calls) = open_after sd was calls
open_after sd was (ioctl_call s b ∷ calls) = open_after sd was calls
open_after sd was (connect_call s ∷ calls) = open_after sd was calls
open_after sd was (shutdown_call s ∷ calls) = open_after sd was calls

-- The calls of each kind of socket, from its opening to its end.
abbrev pub tcp_sv_calls : Kernel → ℕ → ℕ → List Call
tcp_sv_calls k port backlog =
    let o = tcp_sv_socket_init k port backlog in o.calls ++ tcp_sv_socket_deinit o.sd

abbrev pub tcp_cl_calls : Kernel → List Call
tcp_cl_calls k = let o = tcp_cl_socket_init k in o.calls ++ tcp_cl_socket_deinit o.sd

abbrev pub udp_sv_calls : Kernel → ℕ → ℕ → List Call
udp_sv_calls k port blocking =
    let o = udp_sv_socket_init k port blocking in o.calls ++ udp_sv_socket_deinit o.sd

abbrev pub udp_cl_calls : Kernel → ℕ → List Call
udp_cl_calls k blocking =
    let o = udp_cl_socket_init k blocking in o.calls ++ udp_cl_socket_deinit o.sd

-- Of any of the four kinds of socket, whatever the kernel answers, only not the descriptor 0: once it
-- was opened and ended, every descriptor is open exactly if it was open before and is not the one that
-- `socket` returned. So none is left open, also where opening failed halfway.
pub nothing_left_open :
    (k : Kernel) (port backlog blocking sd : ℕ) (was : Bool)
    → k.socket ≢ 0
    → let left = was && not (k.socket == sd) in
      (open_after sd was (tcp_sv_calls k port backlog) ≡ left)
      × (open_after sd was (tcp_cl_calls k) ≡ left)
      × (open_after sd was (udp_sv_calls k port blocking) ≡ left)
      × (open_after sd was (udp_cl_calls k blocking) ≡ left)
unfolding open_after tcp_sv_socket_init tcp_cl_socket_init udp_sv_socket_init udp_cl_socket_init
    tcp_sv_socket_deinit tcp_cl_socket_deinit udp_sv_socket_deinit udp_cl_socket_deinit
nothing_left_open k port backlog blocking sd was h = ground arith
