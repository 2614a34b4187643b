-- ===== src/Startup/Finish.antt =====
-- The end of an experiment reaches every node.
use graduation_research_prog.Base.{
  ℕ, zero, suc, ◌+◌, ◌<◌, ◌≡◌, refl, ◌∙◌, ap, Bool, true, false, Bool-cases, inl, inr, Option, some,
  some-injective, List, [], ◌∷◌, get_elem?, arith,
}
use graduation_research_prog.Outcome.{done}
use graduation_research_prog.Bytes.{Buf, copy}
use graduation_research_prog.Network.{Datagram, udp_sv_receive_msg}
use graduation_research_prog.Config.{get_port_finish_from_client}
use graduation_research_prog.Config.Constants.{replica_num}
use graduation_research_prog.System.{datagram_of_sent}
use graduation_research_prog.Startup.{
  NodeConfig, is_text, text_bytes, finish_text, start_text, master_finish_step, slave_finish_step,
  finish_loop, finish_message, finish_messages, start_message,
}

-- The message is taken for what it is, whatever the buffer held.
finish-is_text :
    (i : ℕ) (old : Buf)
    → is_text
        (udp_sv_receive_msg old 256 (some (datagram_of_sent (finish_message i)))).0
        0
        finish_text
      ≡ true
unfolding is_text udp_sv_receive_msg copy finish_message text_bytes
finish-is_text i old = refl

start-is_text :
    (old : Buf)
    → (is_text (udp_sv_receive_msg old 256 (some (datagram_of_sent start_message))).0 0 finish_text
        ≡ false)
      × (is_text (udp_sv_receive_msg old 256 (some (datagram_of_sent start_message))).0 0 start_text
          ≡ true)
unfolding is_text udp_sv_receive_msg copy start_message text_bytes
start-is_text old = (refl, refl)

-- what follows the loop
abbrev ended : NodeConfig → NodeConfig
ended config = record config { system_finish_request = 1 }

-- A loop that a datagram ends, wherever it comes in.
finish_loop-ends :
    (step : Option Datagram → Buf → NodeConfig → Buf × NodeConfig × Bool) (d : Datagram)
    (events : List (Option Datagram)) (i : ℕ) (recv_msg : Buf) (config : NodeConfig)
    → ((old : Buf) (c : NodeConfig) → (step (some d) old c).2 ≡ false)
    → get_elem? events i ≡ some (some d)
    → (after : NodeConfig) × (finish_loop step events recv_msg config ≡ done after)
      × (after.system_finish_request ≡ 1)
unfolding finish_loop
finish_loop-ends step d [] i recv_msg config ends at = cc
finish_loop-ends step d (event ∷ events) zero recv_msg config ends at =
    let over : (step event recv_msg config).2 ≡ false =
      ap (λ (e : Option Datagram). (step e recv_msg config).2) (some-injective at)
      ∙ ends recv_msg config in
    (ended (step event recv_msg config).1, rw over refl, refl)
finish_loop-ends step d (event ∷ events) (suc i) recv_msg config ends at =
    elim (Bool-cases (step event recv_msg config).2) [
      | inr over ↦ (ended (step event recv_msg config).1, rw over refl, refl)
      | inl on ↦
          let (after, runs, one) =
            finish_loop-ends step d events i (step event recv_msg config).0
              (step event recv_msg config).1 ends at in
          (after, rw on runs, one)
    ]

master-ends :
    (r : ℕ) (old : Buf) (c : NodeConfig)
    → (master_finish_step (some (datagram_of_sent (finish_message r))) old c).2 ≡ false
unfolding master_finish_step
master-ends r old c = rw (finish-is_text r old) refl

slave-ends :
    (r : ℕ) (old : Buf) (c : NodeConfig)
    → (slave_finish_step (some (datagram_of_sent (finish_message r))) old c).2 ≡ false
unfolding slave_finish_step
slave-ends r old c = rw (finish-is_text r old) refl

finish_messages-at :
    (k i r : ℕ) → r < k → get_elem? (finish_messages k i) r ≡ some (finish_message (i + r))
unfolding finish_messages
finish_messages-at zero i r h = absurd (omega (arith, h))
finish_messages-at (suc k) i zero h = ap (λ n. some (finish_message n)) (omega arith)
finish_messages-at (suc k) i (suc r) h =
    finish_messages-at k (suc i) r (omega (arith, h))
    ∙ ap (λ n. some (finish_message n)) (omega arith)

finish_message-port : (r : ℕ) → (finish_message r).port ≡ get_port_finish_from_client r
unfolding finish_message
finish_message-port r = refl

-- The message that the client of client_time.c sends to a replica when its time is over is the one of
-- the replica's place in the row, and goes to the replica's own port. If it is among what the loop of
-- the node receives, at any place, behind other messages, failed receives or an earlier finish, then the
-- loop ends and the node's system is to finish, at the master as at a slave.
pub finish_reaches :
    (r i : ℕ) (events : List (Option Datagram)) (recv_msg : Buf) (config : NodeConfig)
    → r < replica_num
    → get_elem? events i ≡ some (some (datagram_of_sent (finish_message r)))
    → (get_elem? (finish_messages replica_num 0) r ≡ some (finish_message r))
      × ((finish_message r).port ≡ get_port_finish_from_client r)
      × ((after : NodeConfig) × (finish_loop master_finish_step events recv_msg config ≡ done after)
          × (after.system_finish_request ≡ 1))
      × ((after : NodeConfig) × (finish_loop slave_finish_step events recv_msg config ≡ done after)
          × (after.system_finish_request ≡ 1))
finish_reaches r i events recv_msg config h at =
    let d = datagram_of_sent (finish_message r) in
    (
      finish_messages-at replica_num 0 r h ∙ ap (λ n. some (finish_message n)) (omega arith),
      finish_message-port r,
      finish_loop-ends master_finish_step d events i recv_msg config (master-ends r) at,
      finish_loop-ends slave_finish_step d events i recv_msg config (slave-ends r) at,
    )

-- The client's start, whatever the buffer held: the master's loop goes on, and its threads may begin.
-- A slave, whose threads run from the beginning, takes it for nothing.
pub start_begins :
    (recv_msg : Buf) (config : NodeConfig)
    → let event = some (datagram_of_sent start_message) in
      ((master_finish_step event recv_msg config).1 ≡ record config { system_finish_request = 0 })
      × ((master_finish_step event recv_msg config).2 ≡ true)
      × ((slave_finish_step event recv_msg config).1 ≡ config)
      × ((slave_finish_step event recv_msg config).2 ≡ true)
unfolding master_finish_step slave_finish_step
start_begins recv_msg config =
    let (other, begins) = start-is_text recv_msg in rw (other, begins) (refl, refl, refl, refl)
