-- ===== src/Superseded/Api/Fanout.antt =====
-- deprecated/api.c, app_server_in: a reply of the server for a key that clients wait for.
use kernel_bypass_group_proj.Base.{
  ℕ, ◌+◌, ◌-◌, ◌%◌, ◌^◌, ◌≤◌, ◌<◌, ◌≡◌, ◌≢◌, refl, ◌∙◌, ap, Bytes, List, ◌∷◌, ◌++◌, append_assoc,
  some, arith, false, length, All, ltb,
}
use kernel_bypass_group_proj.Config.{max_payload_len, local_ip_text, max_key_length}
use kernel_bypass_group_proj.Dpdk.{Dpdk, Ptr}
use kernel_bypass_group_proj.World.{World, Event, refcnt_update, log}
use kernel_bypass_group_proj.Utils.{ip_str_to_int}
use kernel_bypass_group_proj.Api.Keys.{c_str}
use kernel_bypass_group_proj.Api.Keys.RoundTrip.{IsKey, c_str-IsWord}
use kernel_bypass_group_proj.Superseded.DynamicArray.{Memory, elements}
use kernel_bypass_group_proj.Superseded.Processing.{HashMap, Registry, get_from_map}
use kernel_bypass_group_proj.Superseded.Api.{
  ClientInfo, Limits, Junk, OldState, answer_clients, old_server_in,
}
use kernel_bypass_group_proj.Superseded.Api.Received.{
  Holds, receive-IsRead, message_of_lem, laid, value_text, c_str-text, read_key_of,
}
use kernel_bypass_group_proj.World.Laws.{heap-set_mbuf_ne}
use kernel_bypass_group_proj.Superseded.Api.Replies.{IsReachable, Replied, reply_to-Replied}

module _ (d : Dpdk) (h : HashMap) (mem : Memory ClientInfo) (c : Limits) (junk : Junk)
    (large : c.max_length < 2 ^ 16) (local_small : ip_str_to_int d local_ip_text < 2 ^ 32) where
  answer_clients-Replied :
      (p : Ptr) (key : Bytes) (req_id : ℕ) (reply : Bytes) (s : OldState h.Map) (table : ℕ)
      (t : Registry h.Map ClientInfo)
      → c_str key ≡ key
      → c_str reply ≡ reply
      → length reply + 10 ≤ c.max_length
      → length reply ≤ max_payload_len
      → get_from_map h mem max_key_length s.registry key req_id junk.result ≡ some (table, t)
      → (t.tables table).used ≤ length (t.tables table).array
      → All (IsReachable s.world.arp) (elements (t.tables table))
      → (w : World) × (events : List Event) × (answer_clients d h mem c junk p 34 key req_id reply s
          ≡ some (record s { world = w; registry = t }))
        × (w.trace
            ≡ s.world.trace
              ++ refcnt_update p (((t.tables table).used + 2 ^ 16 - 1) % 2 ^ 16) ∷ events)
        × Replied d p s.world.arp reply (elements (t.tables table)) events
        × ((q : Ptr) → q ≢ p → w.heap q ≡ s.world.heap q)
  unfolding answer_clients
  answer_clients-Replied p key req_id reply s table t same_key same_reply fits small found bounded
        reach =
      let inside : ltb (length (t.tables table).array) (t.tables table).used ≡ false =
        ground arith in
      let w0 = log s.world (refcnt_update p (((t.tables table).used + 2 ^ 16 - 1) % 2 ^ 16)) in
      let (w, events, ran, trace, each, same, others) =
        reply_to-Replied d c junk large local_small p reply (elements (t.tables table)) w0
          s.world.arp fits small refl reach in
      (
        w,
        events,
        rw (answer_clients, same_key, same_reply, found, inside, ran) refl,
        trace ∙ append_assoc s.world.trace _ events,
        each,
        others,
      )

  -- app_server_in of deprecated/api.c, for a MAX_LENGTH and a local address that fit their widths: a
  -- datagram stands in the buffer, with a 16-bit request id and a reply of memcached for a key,
  -- which has no NUL and fits MAX_LENGTH and MAX_PAYLOAD_LEN with its header; get_from_map gives a
  -- table of clients for that key and id, whose used elements are there, and every client of it is
  -- in the ARP table. Then the reference count is changed once, by the number of clients less one as
  -- a uint16_t, and each client in order is sent one datagram from that buffer, with its own request
  -- id and the whole reply; no other buffer changes, and of the state only what get_from_map writes.
  pub old_server_in-Replied :
      (p : Ptr) (req_id : ℕ) (key rest : Bytes) (s : OldState h.Map) (table : ℕ)
      (t : Registry h.Map ClientInfo)
      → Holds s.world p req_id (value_text key rest)
      → IsKey key
      → All (λ x. x ≢ 0) (value_text key rest)
      → length (value_text key rest) + 10 ≤ c.max_length
      → length (value_text key rest) ≤ max_payload_len
      → get_from_map h mem max_key_length s.registry key req_id junk.result ≡ some (table, t)
      → (t.tables table).used ≤ length (t.tables table).array
      → All (IsReachable s.world.arp) (elements (t.tables table))
      → (w : World) × (events : List Event) × (old_server_in d h mem c junk p 34 s
          ≡ some (record s { world = w; registry = t }))
        × (w.trace
            ≡ s.world.trace
              ++ refcnt_update p (((t.tables table).used + 2 ^ 16 - 1) % 2 ^ 16) ∷ events)
        × Replied d p s.world.arp (value_text key rest) (elements (t.tables table)) events
        × ((q : Ptr) → q ≢ p → w.heap q ≡ s.world.heap q)
  unfolding old_server_in
  old_server_in-Replied p req_id key rest s table t holds is text fits small found bounded reach =
      let message = value_text key rest in
      let (payload, got, read) =
        receive-IsRead d c large s.world p req_id message junk.received holds fits in
      let named = read_key_of d c large junk.key key rest payload req_id is text read fits in
      let whole = message_of_lem d c large payload req_id message read fits in
      let (w, events, ran, trace, each, others) =
        answer_clients-Replied p key req_id message (record s { world = laid d s.world p }) table t
          (c_str-IsWord key is.word) (c_str-text message text) fits small found bounded reach in
      (
        w,
        events,
        rw (old_server_in, ap (λ r. r.1) got, ap (λ r. r.0) got, named, whole, read.id_read, ran)
            refl,
        trace,
        each,
        λ q ne. others q ne ∙ heap-set_mbuf_ne s.world p q _ ne,
      )
