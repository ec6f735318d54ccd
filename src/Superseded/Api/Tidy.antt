-- ===== src/Superseded/Api/Tidy.antt =====
-- deprecated/api.c, app_client_in: the group of distinct keys between two requests.
use kernel_bypass_group_proj.Base.{
  ℕ, suc, ◌+◌, ◌≤◌, ◌<◌, Bytes, List, [], ◌∷◌, arith, length, ltb, leb, Bool-cases, inl, inr,
  Option-cases, length-append,
}
use kernel_bypass_group_proj.Base.Results.{Ensures, fails, gives, bind, follow, branch}
use kernel_bypass_group_proj.Config.{target_ip_text, max_req_id, max_key_length}
use kernel_bypass_group_proj.Mem.{read16}
use kernel_bypass_group_proj.Dpdk.{Dpdk, Ptr}
use kernel_bypass_group_proj.World.{refcnt_update, log, data_of}
use kernel_bypass_group_proj.Utils.{ip_str_to_int}
use kernel_bypass_group_proj.Api.Keys.{construct_keys_packet, strip_keys}
use kernel_bypass_group_proj.Api.Group.{has_key}
use kernel_bypass_group_proj.Api.Group.Bounds.{Distinct-append}
use kernel_bypass_group_proj.Api.Group.Pigeons.{Distinct}
use kernel_bypass_group_proj.Superseded.DynamicArray.{Memory}
use kernel_bypass_group_proj.Superseded.Processing.{
  HashMap, insert_client_info_to_map, initialize_map,
}
use kernel_bypass_group_proj.Superseded.Api.{
  ClientInfo, Limits, Junk, OldState, insert_ukey, old_app_send, old_send_group, old_add_key,
  old_add_keys, old_client_in, register_keys, receive, message_of, Payload,
}

-- No key twice, room for one more, and a request id in its range.
pub record IsTidy {Map : Type 0} (c : Limits) (s : OldState Map) : Type 0 where
  pub distinct : Distinct s.ukey
  pub room : length s.ukey < c.group_size
  pub in_range : s.request_id < max_req_id

module _ (d : Dpdk) (c : Limits) where
  -- what insert_ukey leaves of a group
  record IsGrown (old new : List Bytes) : Type 0 where
    distinct : Distinct new
    at_most : length new ≤ suc (length old)

  insert_ukey-IsGrown :
      (key : Bytes) (ukey : List Bytes)
      → Distinct ukey
      → Ensures (IsGrown ukey) (insert_ukey d c key ukey)
  unfolding insert_ukey
  insert_ukey-IsGrown key ukey distinct = elim (Bool-cases (has_key key ukey)) [
    | inl old ↦
        rw (insert_ukey, old) (gives (record { distinct = distinct; at_most = omega arith }))
    | inr new ↦
        rw (insert_ukey, new)
          (branch (ltb (length ukey) c.group_size)
            (gives (record {
              distinct = Distinct-append ukey key distinct new;
              at_most = omega (arith, length-append ukey (key ∷ []));
            }))
            fails)
  ]

module _ (d : Dpdk) (h : HashMap) (mem : Memory ClientInfo) (c : Limits) (junk : Junk)
    (some_room : 0 < c.group_size) where
  old_send_group-IsTidy :
      (p : Ptr) (udph : ℕ) (s : OldState h.Map)
      → Ensures (IsTidy c) (old_send_group d h mem c junk p udph s)
  unfolding old_send_group
  old_send_group-IsTidy p udph s =
      branch (ltb (length (construct_keys_packet s.ukey)) c.max_length)
        (bind
          (old_app_send d c junk (log s.world (refcnt_update p 1)) p udph
            (construct_keys_packet s.ukey) s.request_id (ip_str_to_int d target_ip_text))
          _ (λ w e. gives (record { distinct = tt; room = some_room; in_range = omega arith })))
        fails

  old_add_key-IsTidy :
      (p : Ptr) (udph : ℕ) (client : ClientInfo) (key : Bytes) (s : OldState h.Map)
      → IsTidy c s
      → Ensures (IsTidy c) (old_add_key d h mem c junk p udph client key s)
  unfolding old_add_key
  old_add_key-IsTidy p udph client key s is =
      bind (insert_client_info_to_map h mem max_key_length s.registry key s.request_id client) _
        (λ registry e. follow _ (insert_ukey-IsGrown d c key s.ukey is.distinct) (λ ukey grown.
          elim (Bool-cases (leb c.group_size (length ukey))) [
            | inl full ↦
                rw full
                  (old_send_group-IsTidy p udph (record s { registry = registry; ukey = ukey }))
            | inr space ↦ rw space (
                gives (record {
                  distinct = grown.distinct;
                  room = ground arith;
                  in_range = is.in_range;
                }))
          ]))

  old_add_keys-IsTidy :
      (p : Ptr) (udph : ℕ) (client : ClientInfo) (keys : List Bytes) (s : OldState h.Map)
      → IsTidy c s
      → Ensures (IsTidy c) (old_add_keys d h mem c junk p udph client keys s)
  unfolding old_add_keys
  old_add_keys-IsTidy p udph client [] s is = gives is
  old_add_keys-IsTidy p udph client (key ∷ keys) s is =
      follow _ (old_add_key-IsTidy p udph client key s is)
        (λ t. old_add_keys-IsTidy p udph client keys t)

  register_keys-IsTidy :
      (p : Ptr) (udph client_address : ℕ) (payload : Payload) (s : OldState h.Map)
      → IsTidy c s
      → Ensures (IsTidy c) (register_keys d h mem c junk p udph client_address payload s)
  unfolding register_keys
  register_keys-IsTidy p udph client_address payload s is =
      bind (message_of d c payload) _ (λ message e.
        bind (strip_keys junk.buffer message) _ (λ keys e'.
          follow _
            (old_add_keys-IsTidy p udph
              (record {
                req_id = read16 payload.bytes 0;
                src_ip = client_address;
                src_port = read16 (data_of s.world p) (udph + 2);
              })
              keys (record s { registry = initialize_map h mem max_key_length s.registry })
              (record { distinct = is.distinct; room = is.room; in_range = is.in_range }))
            (λ t tidy.
              gives
                (record { distinct = tidy.distinct; room = tidy.room; in_range = tidy.in_range }))))

  -- For groups of at least one key: if the group of deprecated/api.c has no key twice and room for
  -- one more key, and the request id is below MAX_REQ_ID, then the same holds after app_client_in
  -- has come to its end, whatever the packet, the hash map and the ARP table are.
  pub old_client_in-IsTidy :
      (p : Ptr) (udph client_address : ℕ) (s : OldState h.Map)
      → IsTidy c s
      → Ensures (IsTidy c) (old_client_in d h mem c junk p udph client_address s)
  unfolding old_client_in
  old_client_in-IsTidy p udph client_address s is =
      elim (Option-cases ((receive d c s.world p udph junk.received).1)) [
        | inl e ↦
            rw (old_client_in, e)
              (gives (record { distinct = is.distinct; room = is.room; in_range = is.in_range }))
        | inr (payload, e) ↦
            rw (old_client_in, e)
              (register_keys-IsTidy p udph client_address payload
                (record s { world = (receive d c s.world p udph junk.received).0 })
                (record { distinct = is.distinct; room = is.room; in_range = is.in_range }))
      ]
