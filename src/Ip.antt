-- ===== src/Ip.antt =====
-- middlebox/src/ip.c, towards the wire: ip_out. (ip_in is in Receive.) `none` is a failed assert.
use kernel_bypass_group_proj.Base.{
  ℕ, ◌+◌, ◌-◌, ◌*◌, ◌/◌, ◌%◌, Option, none, some, ◌==◌, if◌then◌else◌,
}
use kernel_bypass_group_proj.Config.{ipv4_hdr_size}
use kernel_bypass_group_proj.Mem.{Mem, read16, write8, write16, write32}
use kernel_bypass_group_proj.Dpdk.{Dpdk, Ptr}
use kernel_bypass_group_proj.World.{World, data_of, set_data}
use kernel_bypass_group_proj.Arp.{arp_lookup_mac}
use kernel_bypass_group_proj.Eth.{eth_out}

abbrev pub rte_ether_type_ipv4 : ℕ
rte_ether_type_ipv4 = 0x0800

abbrev pub ipproto_tcp : ℕ
ipproto_tcp = 6

abbrev pub ipproto_udp : ℕ
ipproto_udp = 17

-- A `uint16_t` stored with no change of byte order, by a little-endian host.
abbrev pub write16_raw : Mem → ℕ → ℕ → Mem
write16_raw m o v a = if a == o then v % 256 else if a == o + 1 then v / 256 % 256 else m a

-- the header without its checksum; `iph` is its offset
unfoldable pub fill_ipv4_hdr : Mem → ℕ → ℕ → ℕ → ℕ → ℕ → ℕ → ℕ → Mem
fill_ipv4_hdr m iph src_ip dst_ip ttl tos proto l4len =
    let m = write8 m iph (4 * 16 + ipv4_hdr_size / 4) in
    let m = write8 m (iph + 1) tos in
    let m = write16 m (iph + 2) (ipv4_hdr_size + l4len) in
    let m = write16 m (iph + 4) 0 in
    let m = write16 m (iph + 6) 0x4000 in
    let m = write8 m (iph + 8) ttl in
    let m = write8 m (iph + 9) proto in
    let m = write16_raw m (iph + 10) 0 in
    let m = write32 m (iph + 12) src_ip in write32 m (iph + 16) dst_ip

-- 0xffff is left as it is; any other sum is complemented.
unfoldable pub fill_checksum : Dpdk → Mem → ℕ → Mem
fill_checksum d m iph =
    let sum = d.raw_cksum m iph ipv4_hdr_size in
    write16_raw m (iph + 10) (if sum == 0xffff then sum else 0xffff - sum)

unfoldable pub ip_out : Dpdk → World → Ptr → ℕ → ℕ → ℕ → ℕ → ℕ → ℕ → ℕ → Option World
unfolding fill_ipv4_hdr fill_checksum
ip_out d w p iph src_ip dst_ip ttl tos proto l4len =
    let m = fill_ipv4_hdr (data_of w p) iph src_ip dst_ip ttl tos proto l4len in
    elim (arp_lookup_mac w.arp dst_ip) [
      | none ↦ none
      | some dst_haddr ↦
          let m = fill_checksum d m iph in
          if proto == ipproto_tcp
          then none
          else some
              (eth_out d (set_data w p m) p rte_ether_type_ipv4 dst_haddr (read16 m (iph + 2)))
    ]
