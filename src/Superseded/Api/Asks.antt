-- ===== src/Superseded/Api/Asks.antt =====
-- deprecated/api.c, the loop of app_client_in: the key that fills the group.
use kernel_bypass_group_proj.Base.{
  ◌+◌, ◌%◌, ◌^◌, ◌≤◌, ◌<◌, ◌≡◌, refl, ◌∙◌, Bytes, List, [], ◌∷◌, ◌++◌, append_assoc, some, arith,
  true, false, length, ltb, leb, length-append, lt→ltb,
}
use kernel_bypass_group_proj.Config.{
  max_payload_len, local_ip_text, target_ip_text, max_req_id, max_key_length,
}
use kernel_bypass_group_proj.Mem.{Mem, slice}
use kernel_bypass_group_proj.Dpdk.{Dpdk, Ptr}
use kernel_bypass_group_proj.World.{refcnt_update, log, transmit}
use kernel_bypass_group_proj.Utils.{ip_str_to_int}
use kernel_bypass_group_proj.Arp.{arp_lookup_mac}
use kernel_bypass_group_proj.Udp.Send.{IsDatagram}
use kernel_bypass_group_proj.Api.Keys.{construct_keys_packet}
use kernel_bypass_group_proj.Api.Group.{has_key}
use kernel_bypass_group_proj.Clients.Datagram.{datagram}
use kernel_bypass_group_proj.Superseded.DynamicArray.{Memory}
use kernel_bypass_group_proj.Superseded.Processing.{HashMap, Registry, insert_client_info_to_map}
use kernel_bypass_group_proj.Superseded.Api.{
  ClientInfo, Limits, Junk, OldState, insert_ukey, old_send_group, old_add_key,
}
use kernel_bypass_group_proj.Superseded.Api.Sends.{old_app_send-Sent}

-- The group of `s` was asked for: one datagram went to the server, under the request id of the time; the
-- group is empty again and the next id is due.
pub record IsAsked {Map : Type 0} (d : Dpdk) (p : Ptr) (s : OldState Map) (mac : Mem)
    (t : OldState Map) : Type 0 where
  pub frame : Mem
  pub trace :
      t.world.trace
      ≡ s.world.trace
        ++ refcnt_update p 1 ∷ transmit p frame (length (construct_keys_packet s.ukey) + 52) ∷ []
  pub is :
      IsDatagram d frame frame mac
        (ip_str_to_int d target_ip_text)
        (length (construct_keys_packet s.ukey) + 10)
  pub body :
      slice frame 42 (10 + length (construct_keys_packet s.ukey))
      ≡ datagram s.request_id (construct_keys_packet s.ukey)
  pub emptied : t.ukey ≡ []
  pub next_id : t.request_id ≡ (s.request_id + 1) % max_req_id
  pub registry : t.registry ≡ s.registry

module _ (d : Dpdk) (h : HashMap) (mem : Memory ClientInfo) (c : Limits) (junk : Junk)
    (large : c.max_length < 2 ^ 16) (local_small : ip_str_to_int d local_ip_text < 2 ^ 32) where
  insert_ukey-new :
      (key : Bytes) (ukey : List Bytes)
      → has_key key ukey ≡ false
      → length ukey < c.group_size
      → insert_ukey d c key ukey ≡ some (ukey ++ key ∷ [])
  unfolding insert_ukey
  insert_ukey-new key ukey new room = rw (insert_ukey, new, lt→ltb _ _ room) refl

  old_send_group-IsAsked :
      (p : Ptr) (s : OldState h.Map) (mac : Mem)
      → length (construct_keys_packet s.ukey) + 10 ≤ c.max_length
      → length (construct_keys_packet s.ukey) ≤ max_payload_len
      → ip_str_to_int d target_ip_text < 2 ^ 32
      → arp_lookup_mac s.world.arp (ip_str_to_int d target_ip_text) ≡ some mac
      → (t : OldState h.Map) × (old_send_group d h mem c junk p 34 s ≡ some t) × IsAsked d p s mac t
  unfolding old_send_group
  old_send_group-IsAsked p s mac fits small target known =
      let gets = construct_keys_packet s.ukey in
      let inside : ltb (length gets) c.max_length ≡ true = lt→ltb _ _ (omega (arith, fits)) in
      let (w, f, ran, sent, is, body) =
        old_app_send-Sent d c junk large local_small (log s.world (refcnt_update p 1)) p gets
          s.request_id (ip_str_to_int d target_ip_text) mac fits small target known in
      (
        record s { world = w; request_id = (s.request_id + 1) % max_req_id; ukey = [] },
        rw (old_send_group, inside, ran) refl,
        record {
          frame = f;
          trace = sent.trace ∙ append_assoc s.world.trace _ _;
          is = is;
          body = body;
          emptied = refl;
          next_id = refl;
          registry = refl;
        },
      )

  -- One round of the loop of app_client_in of deprecated/api.c, for a MAX_LENGTH and a local address
  -- that fit their widths, with a key that is new and fills the group, which
  -- insert_client_info_to_map takes, and a request for the group that fits: the client is registered
  -- under the current request id, then one datagram under that id goes to the server, with the
  -- request for all keys of the group, the new one last; the group is empty afterwards, and the next
  -- request id is the next number modulo MAX_REQ_ID.
  pub old_add_key-IsAsked :
      (p : Ptr) (client : ClientInfo) (key : Bytes) (s : OldState h.Map) (mac : Mem)
      (registry : Registry h.Map ClientInfo)
      → has_key key s.ukey ≡ false
      → length s.ukey + 1 ≡ c.group_size
      → insert_client_info_to_map h mem max_key_length s.registry key s.request_id client
        ≡ some registry
      → length (construct_keys_packet (s.ukey ++ key ∷ [])) + 10 ≤ c.max_length
      → length (construct_keys_packet (s.ukey ++ key ∷ [])) ≤ max_payload_len
      → ip_str_to_int d target_ip_text < 2 ^ 32
      → arp_lookup_mac s.world.arp (ip_str_to_int d target_ip_text) ≡ some mac
      → (t : OldState h.Map) × (old_add_key d h mem c junk p 34 client key s ≡ some t)
        × IsAsked d p (record s { registry = registry; ukey = s.ukey ++ key ∷ [] }) mac t
  unfolding old_add_key
  old_add_key-IsAsked p client key s mac registry new full kept fits small target known =
      let s1 : OldState h.Map = record s { registry = registry; ukey = s.ukey ++ key ∷ [] } in
      let (t, ran, asked) = old_send_group-IsAsked p s1 mac fits small target known in
      let reached : leb c.group_size (length (s.ukey ++ key ∷ [])) ≡ true =
        ground (arith, length-append s.ukey (key ∷ [])) in
      (
        t,
        rw (old_add_key, kept, insert_ukey-new key s.ukey new (omega (arith, full)), reached) ran,
        asked,
      )
