-- ===== src/Config.antt =====
-- middlebox/inc/config.h and middlebox/inc/api.h: the compile-time constants. The sizes of the
-- Ethernet, IPv4 and UDP headers are those of the wire formats (the packed structs of DPDK).
use kernel_bypass_group_proj.Base.{ℕ, ◌-◌, Bytes, []}
use kernel_bypass_group_proj.Base.{◌∷◌, codes}

abbrev pub ether_hdr_size : ℕ
ether_hdr_size = 14

abbrev pub ipv4_hdr_size : ℕ
ipv4_hdr_size = 20

abbrev pub udp_hdr_size : ℕ
udp_hdr_size = 8

abbrev pub rx_ring_size : ℕ
rx_ring_size = 1024

abbrev pub tx_ring_size : ℕ
tx_ring_size = 1024

abbrev pub num_mbufs : ℕ
num_mbufs = 8191

abbrev pub num_small_mbufs : ℕ
num_small_mbufs = 1000

abbrev pub small_mbufs_size : ℕ
small_mbufs_size = 256

abbrev pub map_entries : ℕ
map_entries = 600

abbrev pub eth_mtu : ℕ
eth_mtu = 1500

-- 1472
abbrev pub udp_max_len : ℕ
udp_max_len = eth_mtu - ipv4_hdr_size - udp_hdr_size

abbrev pub arp_entries_count : ℕ
arp_entries_count = 64

abbrev pub local_ip_text : Bytes
local_ip_text = codes "10.1.0.2"

abbrev pub target_ip_text : Bytes
target_ip_text = codes "10.1.0.3"

abbrev pub local_mac_text : Bytes
local_mac_text = codes "DE:AD:BE:EF:AA:AA"

abbrev pub local_port : ℕ
local_port = 8080

abbrev pub target_port : ℕ
target_port = 8080

abbrev pub memcached_req_id_size : ℕ
memcached_req_id_size = 2

abbrev pub memcached_header : Bytes
memcached_header = 0 ∷ 0 ∷ 0 ∷ 1 ∷ 0 ∷ 0 ∷ []

abbrev pub memcached_header_size : ℕ
memcached_header_size = 6

abbrev pub memcached_tail : Bytes
memcached_tail = b'\r' ∷ b'\n' ∷ []

abbrev pub memcached_tail_size : ℕ
memcached_tail_size = 2

abbrev pub max_key_per_packet : ℕ
max_key_per_packet = 722

abbrev pub max_key_length : ℕ
max_key_length = 1443

abbrev pub min_outstanding_req : ℕ
min_outstanding_req = 1000

abbrev pub max_req_id : ℕ
max_req_id = 60000

-- 1462
abbrev pub max_payload_len : ℕ
max_payload_len = udp_max_len - memcached_req_id_size - memcached_header_size - memcached_tail_size

abbrev pub gets_len : ℕ
gets_len = 4

-- in milliseconds
abbrev pub timeout : ℕ
timeout = 100
