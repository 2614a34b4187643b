-- ===== src/Network/Tests.antt =====
-- Examples of sockets.
use graduation_research_prog.Base.{◌≡◌, false, arith}
use graduation_research_prog.Words.{int_minus_one}
use graduation_research_prog.Network.Sockets.{Kernel}
use graduation_research_prog.Network.Lifetime.{
  open_after, tcp_sv_calls, tcp_cl_calls, udp_sv_calls, udp_cl_calls, nothing_left_open,
}

-- the port is taken: `bind` fails
abbrev port_taken : Kernel
port_taken = record { socket = 5; bind = int_minus_one; listen = 0; ioctl = 0 }

-- the descriptor that was opened
nothing_left_open_example :
    (open_after 5 false (tcp_sv_calls port_taken 7001 10) ≡ false)
    × (open_after 5 false (tcp_cl_calls port_taken) ≡ false)
    × (open_after 5 false (udp_sv_calls port_taken 7001 0) ≡ false)
    × (open_after 5 false (udp_cl_calls port_taken 0) ≡ false)
nothing_left_open_example =
    nothing_left_open port_taken 7001 10 0 5 false (λ h. absurd (omega (arith, h)))
