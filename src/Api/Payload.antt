-- ===== src/Api/Payload.antt =====
-- middlebox/src/api.c, payloads: get_iph_udph_from_buf, extract_info, init_net_sge,
-- init_send_app_payload, init_rcv_app_payload and app_send. Pointers into a packet are offsets.
-- `tail` of `struct app_payload` is only written, and `total_len_no_id` not even that.
pub mod Send
use kernel_bypass_group_proj.Base.{
  ℕ, ◌+◌, ◌-◌, ◌*◌, ◌/◌, ◌%◌, ◌^◌, Bytes, [], ◌∷◌, Option, none, some, Bool, ltb, if◌then◌else◌,
  length, get_or,
}
use kernel_bypass_group_proj.Base.Int.{ℤ}
use kernel_bypass_group_proj.Config.{
  ether_hdr_size, udp_hdr_size, udp_max_len, max_payload_len, memcached_req_id_size,
  memcached_header, memcached_header_size, memcached_tail, memcached_tail_size,
}
use kernel_bypass_group_proj.Mem.{Mem, read16, write16, memcpy}
use kernel_bypass_group_proj.Dpdk.{Dpdk, Ptr}
use kernel_bypass_group_proj.World.{World, free, log, data_of, set_data}
use kernel_bypass_group_proj.Udp.{NetSge, udp_send}

pub record AppPayload : Type 0 where
  pub req_id : ℕ
  pub hdr : ℕ
  pub payload : ℕ
  pub msg_len : ℕ
  pub total_len : ℕ

-- the offsets of the IP and of the UDP header
abbrev pub get_iph_udph_from_buf : Mem → ℕ × ℕ
get_iph_udph_from_buf m = (ether_hdr_size, ether_hdr_size + m ether_hdr_size % 16 * 4)

-- for the two bytes that every caller asks for
abbrev pub extract_info : Mem → ℕ → ℕ
extract_info m pos = read16 m pos

-- `rte_be_to_cpu_16(udph->dgram_len) - sizeof(struct rte_udp_hdr)`, as a `uint32_t`
abbrev pub payload_len_of : Mem → ℕ → ℕ
payload_len_of m udph = (read16 m (udph + 4) + 2 ^ 32 - udp_hdr_size) % 2 ^ 32

-- `total_len` and what is left for the message, as `uint16_t`
abbrev pub received : ℕ → ℕ → AppPayload
received udph payload_len =
    let total_len = payload_len % 2 ^ 16 in
    record {
      req_id = udph + udp_hdr_size;
      hdr = udph + udp_hdr_size + memcached_req_id_size;
      payload = udph + udp_hdr_size + memcached_req_id_size + memcached_header_size;
      msg_len =
          (total_len
            + 2 ^ 16
            - (memcached_tail_size + memcached_header_size + memcached_req_id_size))
          % 2 ^ 16;
      total_len = total_len;
    }

-- `none` is NULL: the payload is too long.
unfoldable pub init_rcv_app_payload : Mem → ℕ → Option AppPayload
init_rcv_app_payload m udph =
    if ltb udp_max_len (payload_len_of m udph)
    then none
    else some (received udph (payload_len_of m udph))

-- the bytes of a string or an array
abbrev pub image : Bytes → Mem
image s i = get_or s i 0

unfoldable pub fill_request : Mem → ℕ → Bytes → ℕ → Mem
fill_request m udph message req_id =
    let ap = received udph 0 in
    let m = write16 m ap.req_id req_id in
    let m = memcpy m ap.hdr (image memcached_header) memcached_header_size in
    let m = memcpy m ap.payload (image message) (length message) in
    memcpy m (ap.payload + length message) (image memcached_tail) memcached_tail_size

-- The message is used, and the lengths set anew, only towards the server.
unfoldable pub init_send_app_payload : Mem → ℕ → Bytes → ℕ → Bool → Option (AppPayload × Mem)
unfolding fill_request
init_send_app_payload m udph message req_id to_server =
    let ap = received udph (payload_len_of m udph) in
    let total_len =
      (length message + memcached_tail_size + memcached_header_size + memcached_req_id_size)
      % 2 ^ 16 in
    if ltb max_payload_len (length message)
    then none
    else some (
        if to_server
        then (
          record ap { msg_len = length message; total_len = total_len },
          fill_request m udph message req_id,
        )
        else (ap, write16 m ap.req_id req_id))

-- The structure lies over the packet from `sizeof(struct ip_tuple)` on.
unfoldable pub init_net_sge : Dpdk → World → Ptr → ℕ → World × NetSge
init_net_sge d w p udph =
    let m = data_of w p in
    let len = payload_len_of m udph in
    (set_data w p (memcpy m 12 (d.net_sge_image p len) 24), record { len = len; handle = p })

unfoldable pub app_send : Dpdk → World → Ptr → ℕ → Bytes → ℕ → ℕ → Bool → Option World
unfolding init_send_app_payload init_net_sge
app_send d w p udph msg req_id destination_ip to_server =
    elim (init_send_app_payload (data_of w p) udph msg req_id to_server) [
      | none ↦ some (log w (free p))
      | some (ap, m) ↦
          let (w1, e) = init_net_sge d (set_data w p m) p udph in
          let e = if to_server then record e { len = ap.total_len } else e in
          elim (udp_send d w1 e destination_ip) [ none ↦ none | some (_, w2) ↦ some w2 ]
    ]
