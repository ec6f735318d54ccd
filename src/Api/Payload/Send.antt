-- ===== src/Api/Payload/Send.antt =====
-- What app_send puts on the wire, and that init_rcv_app_payload reads it back.
use kernel_bypass_group_proj.Base.{
  ℕ, suc, ◌+◌, ◌-◌, ◌%◌, ◌^◌, ◌≤◌, ◌<◌, ◌≡◌, refl, sym, ◌∙◌, ap, ap₂, subst, Bytes, [], ◌∷◌, none,
  some, arith, true, false, ltb, length, get_or,
}
use kernel_bypass_group_proj.Base.Int.{pos}
use kernel_bypass_group_proj.Config.{udp_max_len, max_payload_len, local_ip_text}
use kernel_bypass_group_proj.Mem.{Mem, read16, memcpy, slice, write16}
use kernel_bypass_group_proj.Dpdk.{Dpdk, Ptr}
use kernel_bypass_group_proj.World.{World, data_of, set_data}
use kernel_bypass_group_proj.World.Laws.{data_of-set_data, Sent, Sent-set_data}
use kernel_bypass_group_proj.Utils.{ip_str_to_int}
use kernel_bypass_group_proj.Arp.{arp_lookup_mac}
use kernel_bypass_group_proj.Udp.{udp_send}
use kernel_bypass_group_proj.Udp.Send.{IsDatagram, IsDatagram-self, udp_send_lem}
use kernel_bypass_group_proj.Api.Payload.{
  AppPayload, payload_len_of, image, fill_request, init_send_app_payload, init_rcv_app_payload,
  init_net_sge, app_send, extract_info, get_iph_udph_from_buf,
}

-- The bytes of a request that is laid out for the server.
module _ (m : Mem) (message : Bytes) (req_id : ℕ) where
  abbrev filled : Mem
  filled = fill_request m 34 message req_id

  filled-message : (i : ℕ) → i < length message → filled (50 + i) ≡ get_or message i 0
  unfolding fill_request
  filled-message i h =
      let at_i : 50 + i - 50 ≡ i = omega arith in
      ground (arith, ap (λ (k : ℕ). get_or message k 0) at_i)

  filled-tail : (filled (50 + length message) ≡ b'\r') × (filled (51 + length message) ≡ b'\n')
  unfolding fill_request
  filled-tail =
      let n = length message in
      let first : 50 + n - (50 + n) ≡ 0 = omega arith in
      let second : 51 + n - (50 + n) ≡ 1 = omega arith in
      (
        ground (arith, ap (image (b'\r' ∷ b'\n' ∷ [])) first),
        ground (arith, ap (image (b'\r' ∷ b'\n' ∷ [])) second),
      )

  -- the request id, the sequence number 0, one datagram, and the reserved bytes
  filled-header :
      req_id < 2 ^ 16
      → (read16 filled 42 ≡ req_id)
        × (read16 filled 44 ≡ 0)
        × (read16 filled 46 ≡ 1)
        × (read16 filled 48 ≡ 0)
  unfolding fill_request
  filled-header h = (ground arith, ground arith, ground arith, ground arith)

pub slice-image :
    (m : Mem) (o : ℕ) (s : Bytes)
    → ((i : ℕ) → i < length s → m (o + i) ≡ get_or s i 0)
    → slice m o (length s) ≡ s
slice-image m o [] h = refl
slice-image m o (c ∷ s) h =
    ap₂ ◌∷◌ (ap m (omega arith) ∙ h 0 (omega arith))
      (slice-image m (o + 1) s (λ i lt. ap m (omega arith) ∙ h (suc i) (omega arith)))

-- `f` is a request as memcached reads it: one datagram with this request id and this message.
pub record IsRequest (f : Mem) (req_id : ℕ) (message : Bytes) : Type 0 where
  pub headers : get_iph_udph_from_buf f ≡ (14, 34)
  pub received_as :
      (ap : AppPayload) × (init_rcv_app_payload f 34 ≡ some ap)
      × (extract_info f ap.req_id ≡ req_id)
      × (extract_info f ap.hdr ≡ 0)
      × (extract_info f (ap.hdr + 2) ≡ 1)
      × (slice f ap.payload ap.msg_len ≡ message)
  pub tail : (f (50 + length message) ≡ b'\r') × (f (51 + length message) ≡ b'\n')

init_rcv-datagram :
    (f : Mem) (len : ℕ)
    → read16 f 38 ≡ len + 10 + 8
    → len ≤ max_payload_len
    → init_rcv_app_payload f 34
      ≡ some (record { req_id = 42; hdr = 44; payload = 50; msg_len = len; total_len = len + 10 })
unfolding init_rcv_app_payload
init_rcv-datagram f len e h = ground arith

datagram-IsRequest :
    (d : Dpdk) (m f mac : Mem) (dst_ip req_id : ℕ) (message : Bytes)
    → ((i : ℕ) → f (42 + i) ≡ fill_request m 34 message req_id (42 + i))
    → IsDatagram d f f mac dst_ip (length message + 10)
    → req_id < 2 ^ 16
    → length message ≤ max_payload_len
    → IsRequest f req_id message
datagram-IsRequest d m f mac dst_ip req_id message same is small fits =
    let g = fill_request m 34 message req_id in
    let at_42 : f 42 ≡ g 42 = same 0 in
    let at_43 : f 43 ≡ g 43 = same 1 in
    let at_44 : f 44 ≡ g 44 = same 2 in
    let at_45 : f 45 ≡ g 45 = same 3 in
    let at_46 : f 46 ≡ g 46 = same 4 in
    let at_47 : f 47 ≡ g 47 = same 5 in
    let behind = λ (k i : ℕ) (e : 42 + k ≡ i). subst (λ (j : ℕ). f j ≡ g j) e (same k) in
    let facts = filled-header m message req_id small in
    let ends = filled-tail m message req_id in
    let n = length message in
    record {
      headers = rw is.version_ihl;
      received_as = (
        record { req_id = 42; hdr = 44; payload = 50; msg_len = n; total_len = n + 10 },
        init_rcv-datagram f n is.dgram_len fits,
        omega (arith, at_42, at_43, facts.0),
        omega (arith, at_44, at_45, facts.1),
        omega (arith, at_46, at_47, facts.2),
        slice-image f 50 message
            (λ i lt. behind (8 + i) (50 + i) (omega arith) ∙ filled-message m message req_id i lt),
      );
      tail = (
        behind (8 + n) (50 + n) (omega arith) ∙ ends.0,
        behind (9 + n) (51 + n) (omega arith) ∙ ends.1,
      );
    }

past_structure : (m image : Mem) (i : ℕ) → memcpy m 12 image 24 (42 + i) ≡ m (42 + i)
past_structure m image i = ground arith

module _ (d : Dpdk) (w : World) (p : Ptr) (dst_ip req_id : ℕ) (mac : Mem)
    (known : arp_lookup_mac w.arp dst_ip ≡ some mac) (dst_small : dst_ip < 2 ^ 32)
    (local_small : ip_str_to_int d local_ip_text < 2 ^ 32) where
  -- The structure that init_net_sge lays over the packet does not reach the payload.
  sge_send :
      (m : Mem) (n : ℕ)
      → n ≤ udp_max_len
      → (w' : World) × (f : Mem) × (udp_send d
            (init_net_sge d (set_data w p m) p 34).0
            (record { len = n; handle = p })
            dst_ip
          ≡ some (pos 0, w'))
        × Sent w p f (n + 42) w'
        × IsDatagram d f f mac dst_ip n
        × ((i : ℕ) → f (42 + i) ≡ m (42 + i))
  unfolding init_net_sge
  sge_send m n fits =
      let w1 = set_data w p m in
      let len = payload_len_of (data_of w1 p) 34 in
      let g = memcpy (data_of w1 p) 12 (d.net_sge_image p len) 24 in
      let w2 = set_data w1 p g in
      let (w', f, ran, sent, is) =
        udp_send_lem d w2 (record { len = n; handle = p }) dst_ip fits dst_small local_small mac
          known in
      (
        w',
        f,
        ran,
        Sent-set_data w p m f (n + 42) w' (Sent-set_data w1 p g f (n + 42) w' sent),
        IsDatagram-self d _ f mac dst_ip n is,
        λ i.
            is.body i
            ∙ ap (λ (t : Mem). t (42 + i)) (data_of-set_data w1 p g)
            ∙ past_structure (data_of w1 p) (d.net_sge_image p len) i
            ∙ ap (λ (t : Mem). t (42 + i)) (data_of-set_data w p m),
      )

  -- Towards an address of the ARP table, with 32-bit addresses and a message of at most
  -- MAX_PAYLOAD_LEN bytes, app_send to the server transmits one datagram out of its buffer and
  -- touches nothing else: init_rcv_app_payload and extract_info read it as exactly this 16-bit
  -- request id, the sequence number 0, one datagram and this message, which a line break follows.
  pub app_send-IsRequest :
      (msg : Bytes)
      → length msg ≤ max_payload_len
      → req_id < 2 ^ 16
      → (w' : World) × (f : Mem) × (app_send d w p 34 msg req_id dst_ip true ≡ some w')
        × Sent w p f (length msg + 52) w'
        × IsDatagram d f f mac dst_ip (length msg + 10)
        × IsRequest f req_id msg
  unfolding app_send init_send_app_payload init_net_sge
  app_send-IsRequest msg fits small =
      let m = fill_request (data_of w p) 34 msg req_id in
      let (w', f, ran, sent, is, body) = sge_send m (length msg + 10) (omega arith) in
      let n_ok : (length msg + 2 + 6 + 2) % 2 ^ 16 ≡ length msg + 10 = omega arith in
      let fits_ok : ltb max_payload_len (length msg) ≡ false = ground arith in
      (
        w',
        f,
        rw (app_send, fits_ok, n_ok, ran),
        subst (λ (n : ℕ). Sent w p f n w') (omega arith) sent,
        is,
        datagram-IsRequest d (data_of w p) f mac dst_ip req_id msg body is small fits,
      )

  -- Towards a client whose address is in the ARP table, with 32-bit addresses and a packet of at
  -- most UDP_MAX_LEN bytes of payload, app_send transmits the packet as one datagram to that client,
  -- with the same payload but for the first two bytes, which are the client's 16-bit request id;
  -- nothing else is touched.
  pub app_send-forwards :
      payload_len_of (data_of w p) 34 ≤ udp_max_len
      → req_id < 2 ^ 16
      → let n = payload_len_of (data_of w p) 34 in
        (w' : World) × (f : Mem) × (app_send d w p 34 [] req_id dst_ip false ≡ some w')
        × Sent w p f (n + 42) w'
        × IsDatagram d f f mac dst_ip n
        × (extract_info f 42 ≡ req_id)
        × ((i : ℕ) → f (44 + i) ≡ data_of w p (44 + i))
  unfolding app_send init_send_app_payload init_net_sge
  app_send-forwards fits small =
      let n = payload_len_of (data_of w p) 34 in
      let m = write16 (data_of w p) 42 req_id in
      let (w', f, ran, sent, is, body) = sge_send m n fits in
      let at_42 : f 42 ≡ m 42 = body 0 in
      let at_43 : f 43 ≡ m 43 = body 1 in
      let len_ok : payload_len_of (data_of (set_data w p m) p) 34 ≡ n =
        ap (λ (t : Mem). payload_len_of t 34) (data_of-set_data w p m) in
      let past_id : (i : ℕ) → m (44 + i) ≡ data_of w p (44 + i) = λ i. ground arith in
      (
        w',
        f,
        subst
            (λ (k : ℕ).
              elim (udp_send d (init_net_sge d (set_data w p m) p 34).0
                (record { len = k; handle = p }) dst_ip) [ none ↦ none | some r ↦ some r.1 ]
              ≡ some w')
            (sym len_ok) (rw ran),
        sent,
        is,
        omega (arith, at_42, at_43),
        λ i. subst (λ (k : ℕ). f k ≡ m k) (omega arith) (body (2 + i)) ∙ past_id i,
      )
