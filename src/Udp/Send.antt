-- ===== src/Udp/Send.antt =====
-- The frame that udp_send puts on the wire.
use kernel_bypass_group_proj.Base.{
  ℕ, ◌+◌, ◌%◌, ◌^◌, ◌≤◌, ◌<◌, ◌≡◌, refl, subst, some, arith, false, ltb,
}
use kernel_bypass_group_proj.Base.Int.{pos}
use kernel_bypass_group_proj.Config.{udp_max_len, local_ip_text}
use kernel_bypass_group_proj.Mem.{Mem, read16, read32, memcpy}
use kernel_bypass_group_proj.Dpdk.{Dpdk, Ptr}
use kernel_bypass_group_proj.World.{World, data_of, set_data}
use kernel_bypass_group_proj.World.Laws.{data_of-set_data, Sent, Sent-set_data}
use kernel_bypass_group_proj.Utils.{ip_str_to_int, get_local_mac}
use kernel_bypass_group_proj.Arp.{arp_lookup_mac}
use kernel_bypass_group_proj.Arp.Answer.{below_six}
use kernel_bypass_group_proj.Eth.{fill_ether_hdr, eth_out}
use kernel_bypass_group_proj.Eth.Frame.{eth_out-Sent}
use kernel_bypass_group_proj.Ip.{
  fill_ipv4_hdr, fill_checksum, ip_out, ipproto_udp, rte_ether_type_ipv4,
}
use kernel_bypass_group_proj.Udp.{NetSge, fill_udp_hdr, init_ip_tuple, udp_out, udp_send}

-- `f` is a UDP datagram of `len` payload bytes from this host to `dst_ip`, whose payload is what
-- `m` holds from offset 42 on.
pub record IsDatagram (d : Dpdk) (m f mac : Mem) (dst_ip len : ℕ) : Type 0 where
  pub ether_dst : (i : ℕ) → i < 6 → f i ≡ mac i
  pub ether_src : (i : ℕ) → i < 6 → f (6 + i) ≡ get_local_mac d i
  pub ether_type : read16 f 12 ≡ 0x0800
  pub version_ihl : f 14 ≡ 0x45
  pub total_length : read16 f 16 ≡ len + 28
  pub protocol : f 23 ≡ 17
  pub src_addr : read32 f 26 ≡ ip_str_to_int d local_ip_text
  pub dst_addr : read32 f 30 ≡ dst_ip
  pub src_port : read16 f 34 ≡ 8080
  pub dst_port : read16 f 36 ≡ 8080
  pub dgram_len : read16 f 38 ≡ len + 8
  pub body : (i : ℕ) → f (42 + i) ≡ m (42 + i)

-- Such a frame is one whose payload is its own.
pub IsDatagram-self :
    (d : Dpdk) (m f mac : Mem) (dst_ip len : ℕ)
    → IsDatagram d m f mac dst_ip len
    → IsDatagram d f f mac dst_ip len
IsDatagram-self d m f mac dst_ip len is = record {
  ether_dst = is.ether_dst;
  ether_src = is.ether_src;
  ether_type = is.ether_type;
  version_ihl = is.version_ihl;
  total_length = is.total_length;
  protocol = is.protocol;
  src_addr = is.src_addr;
  dst_addr = is.dst_addr;
  src_port = is.src_port;
  dst_port = is.dst_port;
  dgram_len = is.dgram_len;
  body = λ i. refl;
}

-- the frame made of the packet `m`
abbrev pub datagram : Dpdk → Mem → Mem → ℕ → ℕ → Mem
datagram d m mac dst_ip len =
    fill_ether_hdr d
      (fill_checksum d
        (fill_ipv4_hdr (fill_udp_hdr (memcpy m 0 (d.ip_tuple_image dst_ip) 12) 8080 8080 len) 14
          (ip_str_to_int d local_ip_text) dst_ip 64 0 ipproto_udp ((len + 8) % 2 ^ 16))
        14)
      rte_ether_type_ipv4 mac

module _ (d : Dpdk) (m mac : Mem) (dst_ip len : ℕ) where
  datagram-body : (i : ℕ) → datagram d m mac dst_ip len (42 + i) ≡ m (42 + i)
  unfolding fill_ether_hdr fill_checksum fill_ipv4_hdr fill_udp_hdr
  datagram-body i = ground arith

  datagram-IsDatagram :
      len ≤ udp_max_len
      → dst_ip < 2 ^ 32
      → ip_str_to_int d local_ip_text < 2 ^ 32
      → IsDatagram d m (datagram d m mac dst_ip len) mac dst_ip len
  unfolding fill_ether_hdr fill_checksum fill_ipv4_hdr fill_udp_hdr
  datagram-IsDatagram fits small local_small =
      let f = datagram d m mac dst_ip len in
      record {
        ether_dst = below_six (λ i. f i ≡ mac i) refl refl refl refl refl refl;
        ether_src = below_six (λ i. f (6 + i) ≡ get_local_mac d i) refl refl refl refl refl refl;
        ether_type = refl;
        version_ihl = refl;
        total_length = omega arith;
        protocol = refl;
        src_addr = omega arith;
        dst_addr = omega arith;
        src_port = refl;
        dst_port = refl;
        dgram_len = omega arith;
        body = datagram-body;
      }

module _ (d : Dpdk) (w : World) (p : Ptr) (mac : Mem) (src_ip dst_ip ttl tos l4len : ℕ) where
  ip_out-Sent :
      arp_lookup_mac w.arp dst_ip ≡ some mac
      → let m =
          fill_checksum d
            (fill_ipv4_hdr (data_of w p) 14 src_ip dst_ip ttl tos ipproto_udp l4len)
            14 in
        (w' : World) × (ip_out d w p 14 src_ip dst_ip ttl tos ipproto_udp l4len ≡ some w')
        × Sent w p (fill_ether_hdr d m rte_ether_type_ipv4 mac) ((read16 m 16 + 14) % 2 ^ 16) w'
  unfolding ip_out
  ip_out-Sent known =
      let m =
        fill_checksum d (fill_ipv4_hdr (data_of w p) 14 src_ip dst_ip ttl tos ipproto_udp l4len)
          14 in
      let w1 = set_data w p m in
      let w2 = eth_out d w1 p rte_ether_type_ipv4 mac (read16 m 16) in
      (
        w2,
        rw (ip_out, known),
        Sent-set_data w p m _ _ w2 (
            subst
              (λ (t : Mem).
                Sent w1 p (fill_ether_hdr d t rte_ether_type_ipv4 mac) ((read16 m 16 + 14) % 2 ^ 16)
                  w2)
              (data_of-set_data w p m) (eth_out-Sent d w1 p rte_ether_type_ipv4 mac (read16 m 16))),
      )

module _ (d : Dpdk) (w : World) (e : NetSge) (dst_ip : ℕ) where
  -- the packet with the tuple laid over its first bytes
  tuple_laid : Mem
  tuple_laid = memcpy (data_of w e.handle) 0 (d.ip_tuple_image dst_ip) 12

  udp_out-Sent :
      (w1 : World) (m mac : Mem)
      → data_of w1 e.handle ≡ m
      → arp_lookup_mac w1.arp dst_ip ≡ some mac
      → let f =
          fill_checksum d
            (fill_ipv4_hdr
              (fill_udp_hdr m 8080 8080 e.len)
              14
              (ip_str_to_int d local_ip_text)
              dst_ip
              64
              0
              ipproto_udp
              ((e.len + 8) % 2 ^ 16))
            14 in
        (w' : World) × (udp_out d w1 e.handle
            (record {
              src_ip = ip_str_to_int d local_ip_text;
              dst_ip = dst_ip;
              src_port = 8080;
              dst_port = 8080;
            })
            e.len
          ≡ some w')
        × Sent w1 e.handle
            (fill_ether_hdr d f rte_ether_type_ipv4 mac)
            ((read16 f 16 + 14) % 2 ^ 16)
            w'
  unfolding udp_out
  udp_out-Sent w1 m mac same known =
      let m2 = fill_udp_hdr m 8080 8080 e.len in
      let (w', ran, sent) =
        ip_out-Sent d (set_data w1 e.handle m2) e.handle mac (ip_str_to_int d local_ip_text) dst_ip
          64 0 ((e.len + 8) % 2 ^ 16) known in
      (w', rw same ran, Sent-set_data w1 e.handle m2 _ _ w' (rw data_of-set_data at sent))

  -- Of a payload of at most UDP_MAX_LEN bytes, for an address in the ARP table and with 32-bit
  -- addresses, udp_send returns 0 and transmits one frame, from the buffer it was given and with
  -- nothing else touched: an Ethernet frame to that hardware address, with an IPv4 and a UDP header
  -- of the right lengths, addresses and ports, whose payload is as the caller left it, although a
  -- tuple was laid over the packet.
  pub udp_send_lem :
      e.len ≤ udp_max_len
      → dst_ip < 2 ^ 32
      → ip_str_to_int d local_ip_text < 2 ^ 32
      → (mac : Mem) → arp_lookup_mac w.arp dst_ip ≡ some mac
      → (w' : World) × (f : Mem) × (udp_send d w e dst_ip ≡ some (pos 0, w'))
        × Sent w e.handle f (e.len + 42) w'
        × IsDatagram d (data_of w e.handle) f mac dst_ip e.len
  unfolding udp_send init_ip_tuple tuple_laid fill_checksum fill_ipv4_hdr
  udp_send_lem fits small local_small mac known =
      let w1 = set_data w e.handle tuple_laid in
      let m = data_of w e.handle in
      let f = datagram d m mac dst_ip e.len in
      let (w', ran, sent) =
        udp_out-Sent w1 tuple_laid mac (data_of-set_data w e.handle tuple_laid) known in
      let len_ok : ltb udp_max_len e.len ≡ false = ground arith in
      let is = datagram-IsDatagram d m mac dst_ip e.len fits small local_small in
      (
        w',
        f,
        rw (udp_send, len_ok, ran),
        Sent-set_data w e.handle tuple_laid f (e.len + 42) w'
            (subst (λ (n : ℕ). Sent w1 e.handle f n w') (omega (arith, is.total_length)) sent),
        is,
      )
