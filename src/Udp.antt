-- ===== src/Udp.antt =====
-- middlebox/src/udp.c, towards the wire: init_ip_tuple, udp_out and udp_send. (udp_in is in
-- Receive.) A `struct ip_tuple` and a `struct net_sge` are laid over the first bytes of the packet;
-- what they do to the packet is written out, and their fields are passed on as values.
pub mod Send
use kernel_bypass_group_proj.Base.{ℕ, ◌+◌, ◌%◌, ◌^◌, Option, none, some, ltb, if◌then◌else◌}
use kernel_bypass_group_proj.Base.Int.{ℤ, pos, negsuc}
use kernel_bypass_group_proj.Config.{
  local_ip_text, local_port, target_port, udp_max_len, udp_hdr_size,
}
use kernel_bypass_group_proj.Mem.{Mem, memcpy, write16}
use kernel_bypass_group_proj.Dpdk.{Dpdk, Ptr}
use kernel_bypass_group_proj.World.{World, data_of, set_data}
use kernel_bypass_group_proj.Utils.{ip_str_to_int}
use kernel_bypass_group_proj.Ip.{ip_out, ipproto_udp}

pub record IpTuple : Type 0 where
  pub src_ip : ℕ
  pub dst_ip : ℕ
  pub src_port : ℕ
  pub dst_port : ℕ

-- without `payload`, which nobody reads
pub record NetSge : Type 0 where
  pub len : ℕ
  pub handle : Ptr

unfoldable pub init_ip_tuple : Dpdk → World → Ptr → ℕ → World × IpTuple
init_ip_tuple d w p destination_ip = (
  set_data w p (memcpy (data_of w p) 0 (d.ip_tuple_image destination_ip) 12),
  record {
    src_ip = ip_str_to_int d local_ip_text;
    dst_ip = destination_ip;
    src_port = local_port;
    dst_port = target_port;
  },
)

-- The header stands behind an IP header of 20 bytes, at offset 34.
unfoldable pub fill_udp_hdr : Mem → ℕ → ℕ → ℕ → Mem
fill_udp_hdr m src_port dst_port len =
    let m = write16 m 40 0 in
    let m = write16 m 38 (len + udp_hdr_size) in
    let m = write16 m 34 src_port in write16 m 36 dst_port

-- The result is 0 where it returns.
unfoldable pub udp_out : Dpdk → World → Ptr → IpTuple → ℕ → Option World
unfolding fill_udp_hdr
udp_out d w p id len =
    ip_out d (set_data w p (fill_udp_hdr (data_of w p) id.src_port id.dst_port len)) p 14 id.src_ip
      id.dst_ip 64 0 ipproto_udp ((len + udp_hdr_size) % 2 ^ 16)

unfoldable pub udp_send : Dpdk → World → NetSge → ℕ → Option (ℤ × World)
unfolding init_ip_tuple udp_out
udp_send d w e destination_ip =
    let (w1, id) = init_ip_tuple d w e.handle destination_ip in
    if ltb udp_max_len e.len
    then some (negsuc 0, w1)
    else elim (udp_out d w1 e.handle id e.len) [ none ↦ none | some w2 ↦ some (pos 0, w2) ]
