-- ===== src/Config/Tests.antt =====
-- Examples of configuration.c.
use graduation_research_prog.Base.{ℕ, ◌+◌, ◌≡◌, ◌≢◌, refl, some, arith}
use graduation_research_prog.Config.{
  get_port_master_sequencer_from_client_interface, get_port_master_sequencer_from_slave_sequencer,
}
use graduation_research_prog.Config.Constants.{
  port_master_sequencer_from_slave2_client_interface, port_master_sequencer_from_slave3_sequencer,
}
use graduation_research_prog.Config.Ports.{master_ports_distinct}

client-port :
    get_port_master_sequencer_from_client_interface 2 4
    ≡ some (port_master_sequencer_from_slave2_client_interface + 4)
unfolding get_port_master_sequencer_from_client_interface
client-port = refl

ack-port :
    get_port_master_sequencer_from_slave_sequencer 3
    ≡ some port_master_sequencer_from_slave3_sequencer
unfolding get_port_master_sequencer_from_slave_sequencer
ack-port = refl

master_ports_distinct_example :
    ◌≡◌ {A = ℕ} 2 2
    × ◌≡◌ {A = ℕ} 4 4
    × ◌≡◌ {A = ℕ} 3 3
    × (port_master_sequencer_from_slave2_client_interface + 4
        ≢ port_master_sequencer_from_slave3_sequencer)
master_ports_distinct_example =
    master_ports_distinct 2 2 3 3 4 4 _ _ (omega arith) (omega arith) client-port client-port
      ack-port ack-port
