-- ===== src/Api/Flush/Sends.antt =====
-- The request that construct_pkt_and_send_to_server transmits, and the state that it leaves.
use kernel_bypass_group_proj.Base.{
  none, Bool-cases, inl, inr, ℕ, suc, ◌+◌, ◌-◌, ◌%◌, ◌^◌, ◌<◌, ◌≡◌, ◌≢◌, refl, ◌∙◌, ap, subst,
  Bytes, List, [], ◌∷◌, ◌++◌, some, true, false, arith, ◌==◌, ltb, length, length-append,
  get_or-append, get_or, take, take-append, ◌*◌, sym,
}
use mathlib.Core.List.{concat-ne-nil}
use kernel_bypass_group_proj.Base.Int.{pos}
use kernel_bypass_group_proj.Config.{max_payload_len, max_req_id, target_ip_text, local_ip_text}
use kernel_bypass_group_proj.Mem.{Mem}
use kernel_bypass_group_proj.Dpdk.{Dpdk, null}
use kernel_bypass_group_proj.World.{World, refcnt_update, log, data_of}
use kernel_bypass_group_proj.World.Laws.{Sent}
use kernel_bypass_group_proj.Utils.{ip_str_to_int}
use kernel_bypass_group_proj.Arp.{arp_lookup_mac}
use kernel_bypass_group_proj.Udp.Send.{IsDatagram}
use kernel_bypass_group_proj.Api.State.{State, update}
use kernel_bypass_group_proj.Api.Keys.{construct_keys_packet}
use kernel_bypass_group_proj.Api.Keys.Size.{packed, length-construct_keys_packet}
use kernel_bypass_group_proj.Api.Payload.Send.{IsRequest, app_send-IsRequest}
use kernel_bypass_group_proj.Api.Flush.{
  into_payload, split_group, kept_size, send_group, construct_pkt_and_send_to_server,
}

-- The network side that a request needs: the server's hardware address is known, and the packet
-- that is used as a template exists and has an IP header of 20 bytes.
pub record IsReady {d : Dpdk} (s : State d) (mac : Mem) : Type 0 where
  pub known : arp_lookup_mac s.world.arp (ip_str_to_int d target_ip_text) ≡ some mac
  pub target_small : ip_str_to_int d target_ip_text < 2 ^ 32
  pub local_small : ip_str_to_int d local_ip_text < 2 ^ 32
  pub template : s.memcached_pkt ≢ null
  pub short_header : data_of s.world s.memcached_pkt 14 % 16 ≡ 5
  pub id_small : s.request_id < max_req_id

-- The state after a request for the keys `sent`, with `kept` as the next group.
abbrev pub requested : {d : Dpdk} → State d → World → List Bytes → List Bytes → State d
requested s w sent kept = record s {
  world = w;
  ukey = kept;
  total_ukey_size = kept_size kept;
  keys_sent = update s.keys_sent s.request_id (length sent);
  outstanding_req = (s.outstanding_req + 1) % 2 ^ 16;
  keys_rcvd = update s.keys_rcvd s.request_id (pos 0);
  request_id = (s.request_id + 1) % max_req_id;
  last_send_clock = s.clock_at s.clock_reads;
  clock_reads = suc s.clock_reads;
}

-- `w` is the world of `s` after one transmission: the request for `sent` under the id of `s`.
pub record Asked {d : Dpdk} (s : State d) (mac : Mem) (sent : List Bytes) (w : World) : Type 0 where
  pub frame : Mem
  pub transmitted :
      Sent
        (log s.world (refcnt_update s.memcached_pkt 1))
        s.memcached_pkt
        frame
        (packed sent + 56)
        w
  pub datagram : IsDatagram d frame frame mac (ip_str_to_int d target_ip_text) (packed sent + 14)
  pub request : IsRequest frame s.request_id (construct_keys_packet sent)

pub length-ne-zero : (ks : List Bytes) → ks ≢ [] → (length ks == 0) ≡ false
length-ne-zero [] ne = absurd (ne refl)
length-ne-zero (k ∷ ks) ne = ground arith

take-snoc : (ks : List Bytes) (k : Bytes) → take (length (ks ++ k ∷ []) - 1) (ks ++ k ∷ []) ≡ ks
take-snoc ks k =
    ap (λ (n : ℕ). take n (ks ++ k ∷ [])) (omega (arith, length-append ks (k ∷ [])))
    ∙ take-append ks (k ∷ [])

get_or-snoc :
    (ks : List Bytes) (k : Bytes) → get_or (ks ++ k ∷ []) (length (ks ++ k ∷ []) - 1) [] ≡ k
get_or-snoc ks k =
    ap (λ (n : ℕ). get_or (ks ++ k ∷ []) n []) (omega (arith, length-append ks (k ∷ [])))
    ∙ get_or-append ks k []

module _ {d : Dpdk} {s : State d} {mac : Mem} (ready : IsReady s mac) where
  send_group_lem :
      (sent kept : List Bytes)
      → packed sent + 4 < max_payload_len
      → (w : World) × (send_group s sent kept ≡ some (requested s w sent kept)) × Asked s mac sent w
  unfolding send_group
  send_group_lem sent kept fits =
      let text = construct_keys_packet sent in
      let size = length-construct_keys_packet sent in
      let w0 = log s.world (refcnt_update s.memcached_pkt 1) in
      let (w, f, ran, sent_ok, is, req) =
        (app_send-IsRequest d w0 s.memcached_pkt (ip_str_to_int d target_ip_text) s.request_id mac
            ready.known ready.target_small ready.local_small text)
          (omega (arith, size)) (omega (arith, ready.id_small)) in
      let in_array : ltb (length text) max_payload_len ≡ true = ground (arith, size) in
      let at_34 : 14 + data_of s.world s.memcached_pkt 14 % 16 * 4 ≡ 34 =
        omega (arith, ready.short_header) in
      (
        w,
        rw (in_array, at_34, ran),
        record {
          frame = f;
          transmitted =
              subst (λ (n : ℕ). Sent w0 s.memcached_pkt f n w) (omega (arith, size)) sent_ok;
          datagram =
              subst (λ (n : ℕ). IsDatagram d f f mac (ip_str_to_int d target_ip_text) n)
                (omega (arith, size)) is;
          request = req;
        },
      )

  -- Called for a group that is not empty and fits the payload array, where the server's address is
  -- in the ARP table, the template packet has an IP header of 20 bytes and the request id is in
  -- range: it transmits one request, for the keys in order and under the current request id, and
  -- nothing else; the group is empty afterwards, the next request id is the next number modulo
  -- MAX_REQ_ID, the numbers of keys sent and received are recorded under the old id, and one more
  -- request is outstanding.
  pub construct_pkt_and_send_to_server_all :
      s.ukey ≢ []
      → packed s.ukey + 4 < max_payload_len
      → (w : World) × (construct_pkt_and_send_to_server false s ≡ some (requested s w s.ukey []))
        × Asked s mac s.ukey w
  unfolding construct_pkt_and_send_to_server
  construct_pkt_and_send_to_server_all ne fits =
      let (w, ran, asked) = send_group_lem s.ukey [] fits in
      let some_keys = length-ne-zero s.ukey ne in
      let template : (s.memcached_pkt == null) ≡ false = ground (arith, ready.template) in
      (w, rw (some_keys, template) ran, asked)

  -- Called for a full packet, with a group of some keys and one last key, where the server's address
  -- is in the ARP table, the template packet has an IP header of 20 bytes, the request id is in
  -- range and the request without the last key fits the payload array: it transmits one request, for
  -- all keys but the last in order and under the current request id, and nothing else; the last key
  -- alone makes up the next group, the next request id is the next number modulo MAX_REQ_ID, the
  -- numbers of keys sent and received are recorded under the old id, and one more request is
  -- outstanding.
  pub construct_pkt_and_send_to_server_full :
      (ks : List Bytes) (k : Bytes)
      → s.ukey ≡ ks ++ k ∷ []
      → packed ks + 4 < max_payload_len
      → (w : World) × (construct_pkt_and_send_to_server true s ≡ some (requested s w ks (k ∷ [])))
        × Asked s mac ks w
  unfolding construct_pkt_and_send_to_server
  construct_pkt_and_send_to_server_full ks k e fits =
      let (w, ran, asked) = send_group_lem ks (k ∷ []) fits in
      let some_keys = length-ne-zero s.ukey (λ n. concat-ne-nil k ks (sym e ∙ n)) in
      let template : (s.memcached_pkt == null) ≡ false = ground (arith, ready.template) in
      let taken : take (length s.ukey - 1) s.ukey ≡ ks = rw e (take-snoc ks k) in
      let kept : get_or s.ukey (length s.ukey - 1) [] ≡ k = rw e (get_or-snoc ks k) in
      (w, rw (some_keys, template, taken, kept) ran, asked)

-- A group that takes 1458 bytes with its separators, the most that stays below the test for a full
-- packet, cannot be sent: the text of the request has 1462 bytes, and with its NUL it goes past the
-- end of the payload array.
pub construct_pkt_and_send_to_server_overruns :
    {d : Dpdk} (s : State d)
    → packed s.ukey ≡ 1458
    → construct_pkt_and_send_to_server false s ≡ none
unfolding construct_pkt_and_send_to_server send_group into_payload split_group
construct_pkt_and_send_to_server_overruns s e =
    let long : length (construct_keys_packet s.ukey) ≡ 1462 =
      omega (arith, length-construct_keys_packet s.ukey, e) in
    let some_keys = length-ne-zero s.ukey (λ n. omega (arith, e, ap packed n)) in
    elim (Bool-cases (s.memcached_pkt == null)) [
      | inl missing ↦ rw (construct_pkt_and_send_to_server, some_keys, missing)
      | inr there ↦ rw (construct_pkt_and_send_to_server, some_keys, there, long)
    ]
