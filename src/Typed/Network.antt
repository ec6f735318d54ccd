-- ===== src/Typed/Network.antt =====
-- What the layers below the application write are bytes: eth_out, ip_out, udp_send, arp_in and
-- app_send.
use kernel_bypass_group_proj.Base.{
  ℕ, zero, suc, ◌+◌, ◌*◌, ◌/◌, inl, inr, Bytes, [], ◌∷◌, some, none, Bool, arith, ◌==◌, ltb,
  Bool-cases, Option-cases, length,
}
use kernel_bypass_group_proj.Base.Int.{ℤ, pos}
use kernel_bypass_group_proj.Base.Results.{Ensures, fails, gives, follow_elim}
use kernel_bypass_group_proj.Config.{
  memcached_header, memcached_header_size, memcached_tail, memcached_tail_size, udp_max_len,
  max_payload_len, ipv4_hdr_size, udp_hdr_size,
}
use kernel_bypass_group_proj.Mem.{Mem, read16, read32}
use kernel_bypass_group_proj.Dpdk.{Dpdk, Ptr}
use kernel_bypass_group_proj.World.{World, Event, log, data_of, set_data}
use kernel_bypass_group_proj.Utils.{get_local_mac, get_local_ip}
use kernel_bypass_group_proj.Arp.{arp_lookup_mac, fill_arp_hdr, arp_out, arp_in}
use kernel_bypass_group_proj.Arp.Table.{arp_lookup_mac-All}
use kernel_bypass_group_proj.Eth.{fill_ether_hdr, eth_out}
use kernel_bypass_group_proj.Ip.{fill_ipv4_hdr, fill_checksum, ip_out, ipproto_tcp}
use kernel_bypass_group_proj.Udp.{NetSge, init_ip_tuple, fill_udp_hdr, udp_send}
use kernel_bypass_group_proj.Api.Payload.{image, fill_request, init_net_sge, app_send}
use kernel_bypass_group_proj.Typed.{
  AreBytes, IsByteText, IsByteDpdk, HoldsBytes, write8-AreBytes, write16-AreBytes,
  write16_raw-AreBytes, write32-AreBytes, memcpy-AreBytes, set_mbuf-HoldsBytes,
}

pub log-HoldsBytes : (w : World) (e : Event) → HoldsBytes w → HoldsBytes (log w e)
log-HoldsBytes w e h = record { buffers = h.buffers; macs = h.macs }

set_data-HoldsBytes :
    (w : World) (p : Ptr) (m : Mem) → HoldsBytes w → AreBytes m → HoldsBytes (set_data w p m)
set_data-HoldsBytes w p m h g = set_mbuf-HoldsBytes w p (record (w.heap p) { contents = m }) h g

pub image-AreBytes : (s : Bytes) → IsByteText s → AreBytes (image s)
image-AreBytes [] h i = omega arith
image-AreBytes (c ∷ s) h zero = h.0
image-AreBytes (c ∷ s) h (suc i) = image-AreBytes s h.1 i

module _ {d : Dpdk} (ok : IsByteDpdk d) where
  get_local_mac-AreBytes : AreBytes (get_local_mac d)
  unfolding get_local_mac
  get_local_mac-AreBytes = ok.ether _ (ground arith)

  eth_out-HoldsBytes :
      (w : World) (p : Ptr) (proto : ℕ) (mac : Mem) (len : ℕ)
      → HoldsBytes w
      → AreBytes mac
      → HoldsBytes (eth_out d w p proto mac len)
  unfolding eth_out
  eth_out-HoldsBytes w p proto mac len h g =
      let m = data_of w p in
      let filled : AreBytes (fill_ether_hdr d m proto mac) =
        unfold fill_ether_hdr in
        write16-AreBytes _ 12 proto (
          memcpy-AreBytes _ 6 _ 6 (memcpy-AreBytes m 0 mac 6 (h.buffers p) g)
            get_local_mac-AreBytes) in
      let w1 = set_data w p (fill_ether_hdr d m proto mac) in
      let h1 = set_data-HoldsBytes w p _ h filled in
      log-HoldsBytes _ _ (set_mbuf-HoldsBytes w1 p _ h1 (h1.buffers p))

  ip_out-HoldsBytes :
      (w : World) (p : Ptr) (iph src dst ttl tos proto len : ℕ)
      → HoldsBytes w
      → Ensures HoldsBytes (ip_out d w p iph src dst ttl tos proto len)
  unfolding ip_out
  ip_out-HoldsBytes w p iph src dst ttl tos proto len h =
      let m = fill_ipv4_hdr (data_of w p) iph src dst ttl tos proto len in
      let filled : AreBytes m =
        unfold fill_ipv4_hdr in
        write32-AreBytes _ (iph + 16) dst (
          write32-AreBytes _ (iph + 12) src (
            write16_raw-AreBytes _ (iph + 10) 0 (
              write8-AreBytes _ (iph + 9) proto (
                write8-AreBytes _ (iph + 8) ttl (
                  write16-AreBytes _ (iph + 6) 0x4000 (
                    write16-AreBytes _ (iph + 4) 0 (
                      write16-AreBytes _ (iph + 2) _ (
                        write8-AreBytes _ (iph + 1) tos (
                          write8-AreBytes _ iph (4 * 16 + ipv4_hdr_size / 4)
                            (h.buffers p)))))))))) in
      let summed : AreBytes (fill_checksum d m iph) =
        unfold fill_checksum in write16_raw-AreBytes m (iph + 10) _ filled in
      elim (Option-cases (arp_lookup_mac w.arp dst)) [
        | inl unknown ↦ rw (ip_out, unknown) fails
        | inr (mac, known) ↦ elim (Bool-cases (proto == ipproto_tcp)) [
          | inl tcp ↦ rw (ip_out, known, tcp) fails
          | inr other ↦
              rw (ip_out, known, other)
                (gives (
                  eth_out-HoldsBytes _ p _ mac _ (set_data-HoldsBytes w p _ h summed)
                    (arp_lookup_mac-All AreBytes w.arp dst mac h.macs known)))
        ]
      ]

  udp_send-HoldsBytes :
      (w : World) (e : NetSge) (dst : ℕ)
      → HoldsBytes w
      → Ensures (λ (r : ℤ × World). HoldsBytes r.1) (udp_send d w e dst)
  unfolding udp_send
  udp_send-HoldsBytes w e dst h =
      let p = e.handle in
      let w1 = (init_ip_tuple d w p dst).0 in
      let id = (init_ip_tuple d w p dst).1 in
      let h1 : HoldsBytes w1 =
        unfold init_ip_tuple in
        set_data-HoldsBytes w p _ h (memcpy-AreBytes _ 0 _ 12 (h.buffers p) (ok.tuple dst)) in
      let filled : AreBytes (fill_udp_hdr (data_of w1 p) id.src_port id.dst_port e.len) =
        unfold fill_udp_hdr in
        write16-AreBytes _ 36 id.dst_port (
          write16-AreBytes _ 34 id.src_port (
            write16-AreBytes _ 38 (e.len + udp_hdr_size)
              (write16-AreBytes _ 40 0 (h1.buffers p)))) in
      elim (Bool-cases (ltb udp_max_len e.len)) [
        | inl long ↦ rw long (gives h1)
        | inr fits ↦ rw fits (
            follow_elim (λ w2. some (pos 0, w2))
              (ip_out-HoldsBytes _ p 14 id.src_ip id.dst_ip 64 0 _ _
                (set_data-HoldsBytes w1 p _ h1 filled))
              (λ w2 h2. gives h2))
      ]

  pub arp_in-HoldsBytes :
      (w : World) (p : Ptr) (arph : ℕ) → HoldsBytes w → HoldsBytes (arp_in d w p arph)
  unfolding arp_in arp_out
  arp_in-HoldsBytes w p arph h =
      let m = data_of w p in
      let filled : (opcode ip haddr : ℕ) → AreBytes (fill_arp_hdr d m arph opcode ip haddr) =
        λ opcode ip haddr.
          unfold fill_arp_hdr in
          (let before = write32-AreBytes _ (arph + 24) ip (
              write32-AreBytes _ (arph + 14) (get_local_ip d)
                (write16-AreBytes m (arph + 6) opcode (h.buffers p))) in
            memcpy-AreBytes _ (arph + 8) _ 6
              (memcpy-AreBytes _ (arph + 18) _ 6 before (λ i. before (haddr + i)))
              get_local_mac-AreBytes) in
      elim (Bool-cases (read32 m (arph + 24) == get_local_ip d)) [
        | inr other ↦ rw other h
        | inl here ↦ elim (Bool-cases (read16 m (arph + 6) == 1)) [
          | inr reply ↦ rw (here, reply) h
          | inl request ↦
              let f = filled 2 (read32 m (arph + 14)) (arph + 8) in
              rw (here, request)
                (eth_out-HoldsBytes _ p _ _ _ (set_data-HoldsBytes w p _ h f)
                  (λ i. f (arph + 18 + i)))
        ]
      ]

  fill_request-AreBytes :
      (m : Mem) (udph : ℕ) (msg : Bytes) (req_id : ℕ)
      → AreBytes m
      → IsByteText msg
      → AreBytes (fill_request m udph msg req_id)
  unfolding fill_request
  fill_request-AreBytes m udph msg req_id h text =
      memcpy-AreBytes _ _ _ memcached_tail_size
        (memcpy-AreBytes _ _ _ (length msg)
          (memcpy-AreBytes _ _ _ memcached_header_size (write16-AreBytes m (udph + 8) req_id h)
            (image-AreBytes memcached_header (ground arith)))
          (image-AreBytes msg text))
        (image-AreBytes memcached_tail (ground arith))

  init_net_sge-HoldsBytes :
      (w : World) (p : Ptr) (udph : ℕ) → HoldsBytes w → HoldsBytes (init_net_sge d w p udph).0
  unfolding init_net_sge
  init_net_sge-HoldsBytes w p udph h =
      set_data-HoldsBytes w p _ h (memcpy-AreBytes _ 12 _ 24 (h.buffers p) (ok.sge p _))

  send_payload-HoldsBytes :
      (w : World) (e : NetSge) (dst : ℕ)
      → HoldsBytes w
      → Ensures HoldsBytes (elim (udp_send d w e dst) [ none ↦ none | some x ↦ some x.1 ])
  send_payload-HoldsBytes w e dst h =
      follow_elim (λ x. some x.1) (udp_send-HoldsBytes w e dst h) (λ x hx. gives hx)

  pub app_send-HoldsBytes :
      (w : World) (p : Ptr) (udph : ℕ) (msg : Bytes) (req_id dst : ℕ) (to_server : Bool)
      → HoldsBytes w
      → IsByteText msg
      → Ensures HoldsBytes (app_send d w p udph msg req_id dst to_server)
  unfolding app_send
  app_send-HoldsBytes w p udph msg req_id dst to_server h text =
      let m = data_of w p in
      elim (Bool-cases (ltb max_payload_len (length msg))) [
        | inl long ↦ rw (app_send, long) (gives (log-HoldsBytes w _ h))
        | inr fits ↦ elim (Bool-cases to_server) [
          | inl up ↦
              rw (app_send, fits, up)
                (send_payload-HoldsBytes _ _ _ (
                  init_net_sge-HoldsBytes _ p udph (
                    set_data-HoldsBytes w p _ h
                      (fill_request-AreBytes m udph msg req_id (h.buffers p) text))))
          | inr down ↦
              rw (app_send, fits, down)
                (send_payload-HoldsBytes _ _ _ (
                  init_net_sge-HoldsBytes _ p udph (
                    set_data-HoldsBytes w p _ h
                      (write16-AreBytes m (udph + 8) req_id (h.buffers p)))))
        ]
      ]
