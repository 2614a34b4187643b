-- ===== src/Config/Constants.antt =====
-- utils/configuration.h: the sizes of the system, its ports, addresses, timeouts and regions.
use graduation_research_prog.Base.{ℕ, ◌+◌, ◌*◌}

-- a dotted address
abbrev ip : ℕ → ℕ → ℕ → ℕ → ℕ
ip a b c d = ((a * 256 + b) * 256 + c) * 256 + d

abbrev pub replica_num : ℕ
replica_num = 7

abbrev pub storage_size : ℕ
storage_size = 124

abbrev pub client_num : ℕ
client_num = 10

abbrev pub master_sequencer_ipaddr : ℕ
master_sequencer_ipaddr = ip 192 168 1 1

abbrev pub slave1_sequencer_ipaddr : ℕ
slave1_sequencer_ipaddr = ip 192 168 1 2

abbrev pub slave2_sequencer_ipaddr : ℕ
slave2_sequencer_ipaddr = ip 192 168 1 3

abbrev pub slave3_sequencer_ipaddr : ℕ
slave3_sequencer_ipaddr = ip 192 168 1 4

abbrev pub slave4_sequencer_ipaddr : ℕ
slave4_sequencer_ipaddr = ip 192 168 1 5

abbrev pub slave5_sequencer_ipaddr : ℕ
slave5_sequencer_ipaddr = ip 192 168 1 6

abbrev pub slave6_sequencer_ipaddr : ℕ
slave6_sequencer_ipaddr = ip 192 168 1 7

abbrev pub slave1_client_interface_ipaddr : ℕ
slave1_client_interface_ipaddr = ip 192 168 6 2

abbrev pub slave2_client_interface_ipaddr : ℕ
slave2_client_interface_ipaddr = ip 192 168 6 3

abbrev pub slave3_client_interface_ipaddr : ℕ
slave3_client_interface_ipaddr = ip 192 168 6 4

abbrev pub slave4_client_interface_ipaddr : ℕ
slave4_client_interface_ipaddr = ip 192 168 6 5

abbrev pub slave5_client_interface_ipaddr : ℕ
slave5_client_interface_ipaddr = ip 192 168 6 6

abbrev pub slave6_client_interface_ipaddr : ℕ
slave6_client_interface_ipaddr = ip 192 168 6 7

abbrev pub master_client_interface_ipaddr : ℕ
master_client_interface_ipaddr = ip 192 168 6 8

abbrev pub within_region_slave1_ipaddr : ℕ
within_region_slave1_ipaddr = ip 192 168 9 1

abbrev pub within_region_slave2_ipaddr : ℕ
within_region_slave2_ipaddr = ip 192 168 9 2

abbrev pub within_region_slave3_ipaddr : ℕ
within_region_slave3_ipaddr = ip 192 168 9 3

abbrev pub within_region_slave4_ipaddr : ℕ
within_region_slave4_ipaddr = ip 192 168 9 4

abbrev pub within_region_slave5_ipaddr : ℕ
within_region_slave5_ipaddr = ip 192 168 9 5

abbrev pub within_region_slave6_ipaddr : ℕ
within_region_slave6_ipaddr = ip 192 168 9 6

abbrev pub port_master_sequencer_from_slave1_client_interface : ℕ
port_master_sequencer_from_slave1_client_interface = 5100

abbrev pub port_master_sequencer_from_slave2_client_interface : ℕ
port_master_sequencer_from_slave2_client_interface = 5200

abbrev pub port_master_sequencer_from_slave3_client_interface : ℕ
port_master_sequencer_from_slave3_client_interface = 5300

abbrev pub port_master_sequencer_from_slave4_client_interface : ℕ
port_master_sequencer_from_slave4_client_interface = 5400

abbrev pub port_master_sequencer_from_slave5_client_interface : ℕ
port_master_sequencer_from_slave5_client_interface = 5500

abbrev pub port_master_sequencer_from_slave6_client_interface : ℕ
port_master_sequencer_from_slave6_client_interface = 5600

abbrev pub port_master_sequencer_from_slave1_sequencer : ℕ
port_master_sequencer_from_slave1_sequencer = 6661

abbrev pub port_master_sequencer_from_slave2_sequencer : ℕ
port_master_sequencer_from_slave2_sequencer = 6662

abbrev pub port_master_sequencer_from_slave3_sequencer : ℕ
port_master_sequencer_from_slave3_sequencer = 6663

abbrev pub port_master_sequencer_from_slave4_sequencer : ℕ
port_master_sequencer_from_slave4_sequencer = 6664

abbrev pub port_master_sequencer_from_slave5_sequencer : ℕ
port_master_sequencer_from_slave5_sequencer = 6665

abbrev pub port_master_sequencer_from_slave6_sequencer : ℕ
port_master_sequencer_from_slave6_sequencer = 6666

abbrev pub port_slave1_sequencer : ℕ
port_slave1_sequencer = 7771

abbrev pub port_slave2_sequencer : ℕ
port_slave2_sequencer = 7772

abbrev pub port_slave3_sequencer : ℕ
port_slave3_sequencer = 7773

abbrev pub port_slave4_sequencer : ℕ
port_slave4_sequencer = 7774

abbrev pub port_slave5_sequencer : ℕ
port_slave5_sequencer = 7775

abbrev pub port_slave6_sequencer : ℕ
port_slave6_sequencer = 7776

abbrev pub port_slave1_clinet_interface_from_client : ℕ
port_slave1_clinet_interface_from_client = 8881

abbrev pub port_slave2_clinet_interface_from_client : ℕ
port_slave2_clinet_interface_from_client = 8882

abbrev pub port_slave3_clinet_interface_from_client : ℕ
port_slave3_clinet_interface_from_client = 8883

abbrev pub port_slave4_clinet_interface_from_client : ℕ
port_slave4_clinet_interface_from_client = 8884

abbrev pub port_slave5_clinet_interface_from_client : ℕ
port_slave5_clinet_interface_from_client = 8885

abbrev pub port_slave6_clinet_interface_from_client : ℕ
port_slave6_clinet_interface_from_client = 8886

abbrev pub port_finish_master_from_client : ℕ
port_finish_master_from_client = 9000

abbrev pub port_finish_slave1_from_client : ℕ
port_finish_slave1_from_client = 9001

abbrev pub port_finish_slave2_from_client : ℕ
port_finish_slave2_from_client = 9002

abbrev pub port_finish_slave3_from_client : ℕ
port_finish_slave3_from_client = 9003

abbrev pub port_finish_slave4_from_client : ℕ
port_finish_slave4_from_client = 9004

abbrev pub port_finish_slave5_from_client : ℕ
port_finish_slave5_from_client = 9005

abbrev pub port_finish_slave6_from_client : ℕ
port_finish_slave6_from_client = 9006

abbrev pub rto_slave1 : ℕ
rto_slave1 = 1

abbrev pub rto_slave2 : ℕ
rto_slave2 = 1

abbrev pub rto_slave3 : ℕ
rto_slave3 = 1

abbrev pub rto_slave4 : ℕ
rto_slave4 = 1

abbrev pub rto_slave5 : ℕ
rto_slave5 = 1

abbrev pub rto_slave6 : ℕ
rto_slave6 = 1

abbrev pub region_slave1 : ℕ
region_slave1 = 0

abbrev pub region_slave2 : ℕ
region_slave2 = 0

abbrev pub region_slave3 : ℕ
region_slave3 = 0

abbrev pub region_slave4 : ℕ
region_slave4 = 0

abbrev pub region_slave5 : ℕ
region_slave5 = 0

abbrev pub region_slave6 : ℕ
region_slave6 = 0
