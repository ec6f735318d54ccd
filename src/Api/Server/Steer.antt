-- ===== src/Api/Server/Steer.antt =====
-- app_server_in as a whole: which clients get a reply.
use kernel_bypass_group_proj.Base.{
  ℕ, ◌^◌, ◌≤◌, ◌<◌, ◌≡◌, ◌≢◌, Bytes, List, ◌∷◌, ◌++◌, some, none, arith, ltb, if◌then◌else◌, length,
  codes,
}
use kernel_bypass_group_proj.Config.{udp_max_len, local_ip_text, max_key_length}
use kernel_bypass_group_proj.Mem.{Mem, slice}
use kernel_bypass_group_proj.Dpdk.{Dpdk, Ptr}
use kernel_bypass_group_proj.World.{World, Event, free, log, data_of}
use kernel_bypass_group_proj.Utils.{ip_str_to_int}
use kernel_bypass_group_proj.Api.State.{State, log_event, ◌>>=◌}
use kernel_bypass_group_proj.Api.Keys.{c_str, space}
use kernel_bypass_group_proj.Api.Keys.RoundTrip.{IsKey, c_str-IsWord}
use kernel_bypass_group_proj.Api.Keys.Reply.{strip_key_value_lem}
use kernel_bypass_group_proj.Api.Payload.{
  payload_len_of, received, init_rcv_app_payload, extract_info,
}
use kernel_bypass_group_proj.Api.Signature.{signature, print_signature-some}
use kernel_bypass_group_proj.Api.Server.{
  reply_key, track_request, count_packet, steer, app_server_in,
}
use kernel_bypass_group_proj.Api.Server.Deliver.{
  Chain, AllWaiting, Delivered, clients_of, forward_chain_lem,
}

-- The datagram in `m` is the first of a reply about the key `k`: `VALUE k ...`.
pub record IsReply (d : Dpdk) (m : Mem) (k : Bytes) : Type 0 where
  pub accepted : payload_len_of m 34 ≤ udp_max_len
  pub key : IsKey k
  pub rest : Bytes
  pub text : Bytes
  pub message :
      slice m 50 (received 34 (payload_len_of m 34)).msg_len ≡ codes "VALUE " ++ (k ++ space ∷ rest)
  pub c_string : c_str (slice m 50 d.data_room) ≡ codes "VALUE " ++ text

-- The signature is held, and kept for the packets that follow where there are more.
abbrev pub holding : {d : Dpdk} → State d → Bytes → ℕ → State d
holding s sig datagram_exp =
    let s = record s { key_hold = sig } in
    if ltb 1 datagram_exp then record s { last_key = sig } else s

pub init_rcv-some :
    (m : Mem)
    → payload_len_of m 34 ≤ udp_max_len
    → init_rcv_app_payload m 34 ≡ some (received 34 (payload_len_of m 34))
unfolding init_rcv_app_payload
init_rcv-some m h = ground arith

module _ {d : Dpdk} (s : State d) (p : Ptr) (k : Bytes) (is : IsReply d (data_of s.world p) k) where
  abbrev reply_id : ℕ
  reply_id = extract_info (data_of s.world p) 42

  abbrev reply_seq : ℕ
  reply_seq = extract_info (data_of s.world p) 44

  abbrev reply_exp : ℕ
  reply_exp = extract_info (data_of s.world p) 46

  reply_key_lem :
      (array : Bytes)
      → length (signature reply_id k) < max_key_length
      → reply_key array
          (c_str (slice (data_of s.world p) 50 d.data_room))
          (slice
            (data_of s.world p)
            50
            (received 34 (payload_len_of (data_of s.world p) 34)).msg_len)
          reply_id
          reply_exp
          s
        ≡ some (signature reply_id k, holding s (signature reply_id k) reply_exp)
  unfolding reply_key
  reply_key_lem array fits = rw (
    is.message,
    is.c_string,
    strip_key_value_lem array k is.rest is.text is.key,
    c_str-IsWord k is.key.word,
    print_signature-some reply_id k fits,
  )

  -- the state that is asked for the key
  abbrev held : State d
  held = holding s (signature reply_id k) reply_exp

  held-client_pkts : held.client_pkts ≡ s.client_pkts
  held-client_pkts = ground arith

  held-world : held.world ≡ s.world
  held-world = ground arith

  module _ (fuel : ℕ) (array : Bytes) (fits : length (signature reply_id k) < max_key_length) where
    -- The first datagram of a reply about a key, of an accepted length and with a signature that
    -- fits its array, where the table has a chain of clients for that key and the reply's request
    -- id, no longer than the fuel and of buffers that can be answered, and the local address fits 32
    -- bits: app_server_in delivers the reply to every client of that chain in order, each under its
    -- own request id, and to nobody else, then releases the reply's buffer once, with every other
    -- buffer as it was, and goes on to track the request and to count the packet.
    pub app_server_in_lem :
        (qs : List Ptr) (position : ℕ) (head : Ptr)
        → d.lookup_data s.client_pkts (signature reply_id k) ≡ some (position, head)
        → Chain s.world.heap head qs
        → AllWaiting s.world.heap s.world.arp p qs
        → length qs ≤ fuel
        → ip_str_to_int d local_ip_text < 2 ^ 32
        → (w : World) × (es : List Event) × (app_server_in fuel array p 34 s ≡ (
            track_request reply_id reply_seq (record held { world = log w (free p) }) >>= λ s'.
            some (count_packet position head reply_exp (record s' { last_seq_id = reply_seq }))))
          × (w.trace ≡ s.world.trace ++ es)
          × Delivered d p
              (data_of s.world p)
              (payload_len_of (data_of s.world p) 34)
              (clients_of s.world.heap qs)
              es
          × ((q : Ptr) → q ≢ p → w.heap q ≡ s.world.heap q)
    unfolding app_server_in steer track_request
    app_server_in_lem qs position head found chain waiting enough small =
        let m = data_of s.world p in
        let ok = init_rcv-some m is.accepted in
        let found_held : d.lookup_data held.client_pkts (signature reply_id k)
            ≡ some (position, head) =
          rw held-client_pkts found in
        let (w, es, ran, tr, del, others, _) =
          forward_chain_lem d p small fuel qs head s.world enough chain waiting is.accepted in
        (
          w,
          es,
          rw (app_server_in, ok, reply_key_lem array fits, found_held, steer, held-world, ran),
          tr,
          del,
          others,
        )

    -- The first datagram of a reply about a key, of an accepted length and with a signature that
    -- fits its array, that no client waits for under the reply's request id: its buffer is released,
    -- nothing is transmitted, and only the signature is held, as the last key too where more
    -- datagrams follow.
    pub app_server_in-unknown :
        d.lookup_data s.client_pkts (signature reply_id k) ≡ none
        → app_server_in fuel array p 34 s ≡ some (log_event held (free p))
    unfolding app_server_in
    app_server_in-unknown unknown =
        let m = data_of s.world p in
        let ok = init_rcv-some m is.accepted in
        let unknown_held : d.lookup_data held.client_pkts (signature reply_id k) ≡ none =
          rw held-client_pkts unknown in
        rw (app_server_in, ok, reply_key_lem array fits, unknown_held)
