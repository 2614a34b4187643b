-- ===== src/Config/Ports.antt =====
-- No two receivers of the system listen on one port.
use graduation_research_prog.Base.{ℕ, ◌<◌, ◌≡◌, ◌≢◌, some, arith}
use graduation_research_prog.Config.{
  get_port_master_sequencer_from_client_interface, get_port_master_sequencer_from_slave_sequencer,
  get_port_slave_sequencer,
}
use graduation_research_prog.Config.Constants.{client_num}

-- Of the ports at which the master takes the transactions of the clients, no two are the same: the
-- port tells the replica and the client.
pub client_port_injective :
    (r s c d p : ℕ)
    → c < client_num
    → d < client_num
    → get_port_master_sequencer_from_client_interface r c ≡ some p
    → get_port_master_sequencer_from_client_interface s d ≡ some p
    → (r ≡ s) × (c ≡ d)
unfolding get_port_master_sequencer_from_client_interface
client_port_injective r s c d p hc hd e f = ground arith

-- No two slaves have one port at the master for their ACKs.
pub ack_port_injective :
    (r s p : ℕ)
    → get_port_master_sequencer_from_slave_sequencer r ≡ some p
    → get_port_master_sequencer_from_slave_sequencer s ≡ some p
    → r ≡ s
unfolding get_port_master_sequencer_from_slave_sequencer
ack_port_injective r s p e f = ground arith

-- No two slaves have one port for their batches.
pub slave_port_injective :
    (r s p : ℕ) → get_port_slave_sequencer r ≡ some p → get_port_slave_sequencer s ≡ some p → r ≡ s
unfolding get_port_slave_sequencer
slave_port_injective r s p e f = ground arith

-- On the master, no port for a client's transactions is one for a slave's ACKs.
pub client_port-ack_port :
    (r s c p q : ℕ)
    → c < client_num
    → get_port_master_sequencer_from_client_interface r c ≡ some p
    → get_port_master_sequencer_from_slave_sequencer s ≡ some q
    → p ≢ q
unfolding get_port_master_sequencer_from_client_interface
    get_port_master_sequencer_from_slave_sequencer
client_port-ack_port r s c p q h e f = ground arith

-- The ports of the master's receivers: one per client of a slave, the clients being numbered below
-- CLIENT_NUM, and one per slave for its ACKs.
-- Two of them are the same port only if they are of the same kind and of the same slave and client.
pub master_ports_distinct :
    (r s t u c d p q : ℕ)
    → c < client_num
    → d < client_num
    → get_port_master_sequencer_from_client_interface r c ≡ some p
    → get_port_master_sequencer_from_client_interface s d ≡ some p
    → get_port_master_sequencer_from_slave_sequencer t ≡ some q
    → get_port_master_sequencer_from_slave_sequencer u ≡ some q
    → (r ≡ s) × (c ≡ d) × (t ≡ u) × (p ≢ q)
master_ports_distinct r s t u c d p q hc hd e f g h =
    let (same, client) = client_port_injective r s c d p hc hd e f in
    (same, client, ack_port_injective t u q g h, client_port-ack_port r t c p q hc e g)
