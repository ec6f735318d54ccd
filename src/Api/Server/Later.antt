-- ===== src/Api/Server/Later.antt =====
-- app_server_in for the datagrams of a reply behind its first, which do not name the key.
use kernel_bypass_group_proj.Base.{
  ℕ, ◌^◌, ◌≤◌, ◌<◌, ◌≡◌, ◌≢◌, Bytes, List, ◌++◌, some, false, length, codes,
}
use kernel_bypass_group_proj.Config.{udp_max_len, local_ip_text}
use kernel_bypass_group_proj.Mem.{Mem, slice}
use kernel_bypass_group_proj.Dpdk.{Dpdk, Ptr}
use kernel_bypass_group_proj.World.{World, Event, free, log, data_of}
use kernel_bypass_group_proj.Utils.{ip_str_to_int}
use kernel_bypass_group_proj.Api.State.{State, ◌>>=◌}
use kernel_bypass_group_proj.Api.Keys.{c_str, strstr}
use kernel_bypass_group_proj.Api.Keys.Reply.{strip_key_value-missing}
use kernel_bypass_group_proj.Api.Payload.{payload_len_of, received, extract_info}
use kernel_bypass_group_proj.Api.Server.{
  reply_key, track_request, count_packet, steer, app_server_in,
}
use kernel_bypass_group_proj.Api.Server.Deliver.{
  Chain, AllWaiting, Delivered, clients_of, forward_chain_lem,
}
use kernel_bypass_group_proj.Api.Server.Steer.{init_rcv-some}

-- The datagram in `m` is a later one of a reply: it has an accepted length and no VALUE in its text.
pub record IsLater (d : Dpdk) (m : Mem) : Type 0 where
  pub accepted : payload_len_of m 34 ≤ udp_max_len
  pub no_value : strstr (c_str (slice m 50 d.data_room)) (codes "VALUE") ≡ false

module _ {d : Dpdk} (s : State d) (p : Ptr) (is : IsLater d (data_of s.world p)) (fuel : ℕ)
    (array : Bytes) where
  later_key :
      (payload : Bytes) (req_id datagram_exp : ℕ)
      → reply_key array
          (c_str (slice (data_of s.world p) 50 d.data_room))
          payload
          req_id
          datagram_exp
          s
        ≡ some (s.last_key, s)
  unfolding reply_key
  later_key payload req_id datagram_exp = rw (
      strip_key_value-missing array (c_str (slice (data_of s.world p) 50 d.data_room)) payload
        is.no_value)

  -- A datagram of a reply with no VALUE in its text, of an accepted length, where the table has a
  -- chain of clients for the last key that was named, no longer than the fuel and of buffers that
  -- can be answered, and the local address fits 32 bits: app_server_in delivers it to every client
  -- of that chain in order, each under its own request id, and to nobody else, then releases its
  -- buffer once, with every other buffer as it was, and goes on to track the request and to count
  -- the packet.
  pub app_server_in-later :
      (qs : List Ptr) (position : ℕ) (head : Ptr)
      → d.lookup_data s.client_pkts s.last_key ≡ some (position, head)
      → Chain s.world.heap head qs
      → AllWaiting s.world.heap s.world.arp p qs
      → length qs ≤ fuel
      → ip_str_to_int d local_ip_text < 2 ^ 32
      → let m = data_of s.world p in
        (w : World) × (es : List Event) × (app_server_in fuel array p 34 s ≡ (
          track_request
            (extract_info m 42)
            (extract_info m 44)
            (record s { world = log w (free p) })
          >>= λ s'. some (
              count_packet position head
                (extract_info m 46)
                (record s' { last_seq_id = extract_info m 44 }))))
        × (w.trace ≡ s.world.trace ++ es)
        × Delivered d p m (payload_len_of m 34) (clients_of s.world.heap qs) es
        × ((q : Ptr) → q ≢ p → w.heap q ≡ s.world.heap q)
  unfolding app_server_in steer track_request
  app_server_in-later qs position head found chain waiting enough small =
      let m = data_of s.world p in
      let (w, es, ran, tr, del, others, _) =
        forward_chain_lem d p small fuel qs head s.world enough chain waiting is.accepted in
      (
        w,
        es,
        rw (
          app_server_in,
          init_rcv-some m is.accepted,
          later_key (slice m 50 (received 34 (payload_len_of m 34)).msg_len) (extract_info m 42)
              (extract_info m 46),
          found,
          steer,
          ran,
        ),
        tr,
        del,
        others,
      )
