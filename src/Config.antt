-- ===== src/Config.antt =====
-- utils/configuration.c: which port, address, timeout and region belongs to a replica.
-- `none` is a replica that the chain of tests does not name: the function then returns a value that
-- is not determined, or leaves the address buffer as it was. The timeout is in seconds.
pub mod Constants
pub mod Ports
mod Tests
use graduation_research_prog.Base.{ℕ, ◌+◌, ◌==◌, if◌then◌else◌, Option, none, some}
use graduation_research_prog.Config.Constants.{
  master_sequencer_ipaddr, slave1_sequencer_ipaddr, slave2_sequencer_ipaddr,
  slave3_sequencer_ipaddr, slave4_sequencer_ipaddr, slave5_sequencer_ipaddr,
  slave6_sequencer_ipaddr, slave1_client_interface_ipaddr, slave2_client_interface_ipaddr,
  slave3_client_interface_ipaddr, slave4_client_interface_ipaddr, slave5_client_interface_ipaddr,
  slave6_client_interface_ipaddr, master_client_interface_ipaddr, within_region_slave1_ipaddr,
  within_region_slave2_ipaddr, within_region_slave3_ipaddr, within_region_slave4_ipaddr,
  within_region_slave5_ipaddr, within_region_slave6_ipaddr,
  port_master_sequencer_from_slave1_client_interface,
  port_master_sequencer_from_slave2_client_interface,
  port_master_sequencer_from_slave3_client_interface,
  port_master_sequencer_from_slave4_client_interface,
  port_master_sequencer_from_slave5_client_interface,
  port_master_sequencer_from_slave6_client_interface, port_master_sequencer_from_slave1_sequencer,
  port_master_sequencer_from_slave2_sequencer, port_master_sequencer_from_slave3_sequencer,
  port_master_sequencer_from_slave4_sequencer, port_master_sequencer_from_slave5_sequencer,
  port_master_sequencer_from_slave6_sequencer, port_slave1_sequencer, port_slave2_sequencer,
  port_slave3_sequencer, port_slave4_sequencer, port_slave5_sequencer, port_slave6_sequencer,
  port_slave1_clinet_interface_from_client, port_slave2_clinet_interface_from_client,
  port_slave3_clinet_interface_from_client, port_slave4_clinet_interface_from_client,
  port_slave5_clinet_interface_from_client, port_slave6_clinet_interface_from_client,
  port_finish_master_from_client, port_finish_slave1_from_client, port_finish_slave2_from_client,
  port_finish_slave3_from_client, port_finish_slave4_from_client, port_finish_slave5_from_client,
  port_finish_slave6_from_client, rto_slave1, rto_slave2, rto_slave3, rto_slave4, rto_slave5,
  rto_slave6, region_slave1, region_slave2, region_slave3, region_slave4, region_slave5,
  region_slave6,
}

-- `enum exp_t`: which method the experiment runs
pub data Method : Type 0 where
  proposed_method conventional_method tcp_method : Method

unfoldable pub get_port_master_sequencer_from_client_interface : ℕ → ℕ → Option ℕ
get_port_master_sequencer_from_client_interface replica_id client_id =
    if replica_id == 1
    then some (port_master_sequencer_from_slave1_client_interface + client_id)
    else if replica_id == 2
    then some (port_master_sequencer_from_slave2_client_interface + client_id)
    else if replica_id == 3
    then some (port_master_sequencer_from_slave3_client_interface + client_id)
    else if replica_id == 4
    then some (port_master_sequencer_from_slave4_client_interface + client_id)
    else if replica_id == 5
    then some (port_master_sequencer_from_slave5_client_interface + client_id)
    else if replica_id == 6
    then some (port_master_sequencer_from_slave6_client_interface + client_id)
    else none

unfoldable pub get_port_master_sequencer_from_slave_sequencer : ℕ → Option ℕ
get_port_master_sequencer_from_slave_sequencer replica_id =
    if replica_id == 1
    then some port_master_sequencer_from_slave1_sequencer
    else if replica_id == 2
    then some port_master_sequencer_from_slave2_sequencer
    else if replica_id == 3
    then some port_master_sequencer_from_slave3_sequencer
    else if replica_id == 4
    then some port_master_sequencer_from_slave4_sequencer
    else if replica_id == 5
    then some port_master_sequencer_from_slave5_sequencer
    else if replica_id == 6
    then some port_master_sequencer_from_slave6_sequencer
    else none

unfoldable pub get_port_slave_sequencer : ℕ → Option ℕ
get_port_slave_sequencer replica_id =
    if replica_id == 1
    then some port_slave1_sequencer
    else if replica_id == 2
    then some port_slave2_sequencer
    else if replica_id == 3
    then some port_slave3_sequencer
    else if replica_id == 4
    then some port_slave4_sequencer
    else if replica_id == 5
    then some port_slave5_sequencer
    else if replica_id == 6
    then some port_slave6_sequencer
    else none

unfoldable pub get_port_slave_client_interface_from_client : ℕ → Option ℕ
get_port_slave_client_interface_from_client replica_id =
    if replica_id == 1
    then some port_slave1_clinet_interface_from_client
    else if replica_id == 2
    then some port_slave2_clinet_interface_from_client
    else if replica_id == 3
    then some port_slave3_clinet_interface_from_client
    else if replica_id == 4
    then some port_slave4_clinet_interface_from_client
    else if replica_id == 5
    then some port_slave5_clinet_interface_from_client
    else if replica_id == 6
    then some port_slave6_clinet_interface_from_client
    else none

unfoldable pub get_port_finish_from_client : ℕ → Option ℕ
get_port_finish_from_client replica_id =
    if replica_id == 0
    then some port_finish_master_from_client
    else if replica_id == 1
    then some port_finish_slave1_from_client
    else if replica_id == 2
    then some port_finish_slave2_from_client
    else if replica_id == 3
    then some port_finish_slave3_from_client
    else if replica_id == 4
    then some port_finish_slave4_from_client
    else if replica_id == 5
    then some port_finish_slave5_from_client
    else if replica_id == 6
    then some port_finish_slave6_from_client
    else none

unfoldable pub get_sequencer_ipaddr : ℕ → Option ℕ
get_sequencer_ipaddr replica_id =
    if replica_id == 0
    then some master_sequencer_ipaddr
    else if replica_id == 1
    then some slave1_sequencer_ipaddr
    else if replica_id == 2
    then some slave2_sequencer_ipaddr
    else if replica_id == 3
    then some slave3_sequencer_ipaddr
    else if replica_id == 4
    then some slave4_sequencer_ipaddr
    else if replica_id == 5
    then some slave5_sequencer_ipaddr
    else if replica_id == 6
    then some slave6_sequencer_ipaddr
    else none

unfoldable pub get_client_interface_ipaddr : ℕ → Option ℕ
get_client_interface_ipaddr replica_id =
    if replica_id == 0
    then some master_client_interface_ipaddr
    else if replica_id == 1
    then some slave1_client_interface_ipaddr
    else if replica_id == 2
    then some slave2_client_interface_ipaddr
    else if replica_id == 3
    then some slave3_client_interface_ipaddr
    else if replica_id == 4
    then some slave4_client_interface_ipaddr
    else if replica_id == 5
    then some slave5_client_interface_ipaddr
    else if replica_id == 6
    then some slave6_client_interface_ipaddr
    else none

unfoldable pub get_within_region_slave_ipaddr : ℕ → Option ℕ
get_within_region_slave_ipaddr replica_id =
    if replica_id == 1
    then some within_region_slave1_ipaddr
    else if replica_id == 2
    then some within_region_slave2_ipaddr
    else if replica_id == 3
    then some within_region_slave3_ipaddr
    else if replica_id == 4
    then some within_region_slave4_ipaddr
    else if replica_id == 5
    then some within_region_slave5_ipaddr
    else if replica_id == 6
    then some within_region_slave6_ipaddr
    else none

unfoldable pub get_rto : ℕ → Option ℕ
get_rto replica_id =
    if replica_id == 1
    then some rto_slave1
    else if replica_id == 2
    then some rto_slave2
    else if replica_id == 3
    then some rto_slave3
    else if replica_id == 4
    then some rto_slave4
    else if replica_id == 5
    then some rto_slave5
    else if replica_id == 6
    then some rto_slave6
    else none

unfoldable pub get_region : ℕ → Option ℕ
get_region replica_id =
    if replica_id == 1
    then some region_slave1
    else if replica_id == 2
    then some region_slave2
    else if replica_id == 3
    then some region_slave3
    else if replica_id == 4
    then some region_slave4
    else if replica_id == 5
    then some region_slave5
    else if replica_id == 6
    then some region_slave6
    else none
