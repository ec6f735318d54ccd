-- ===== src/Superseded/Api/Trip.antt =====
-- deprecated/api.c: from the key of a client in app_client_in to the reply in app_server_in.
use kernel_bypass_group_proj.Base.{
  ℕ, zero, suc, ◌+◌, ◌-◌, ◌%◌, ◌^◌, ◌≤◌, ◌<◌, ◌≡◌, ◌≢◌, refl, sym, ◌∙◌, ap, subst, Bytes, List, [],
  ◌∷◌, ◌++◌, some, arith, length, take, leb, ltb, All,
}
use kernel_bypass_group_proj.Base.Results.{Ensures, fails, gives, bind, branch, Ensures-some}
use kernel_bypass_group_proj.Config.{max_payload_len, local_ip_text, target_ip_text, max_key_length}
use kernel_bypass_group_proj.Dpdk.{Dpdk, Ptr}
use kernel_bypass_group_proj.World.{Event, refcnt_update, log}
use kernel_bypass_group_proj.Utils.{ip_str_to_int}
use kernel_bypass_group_proj.Api.Keys.{construct_keys_packet}
use kernel_bypass_group_proj.Api.Keys.RoundTrip.{IsKey}
use kernel_bypass_group_proj.Api.Signature.{signature}
use kernel_bypass_group_proj.Superseded.DynamicArray.{Memory, elements}
use kernel_bypass_group_proj.Superseded.DynamicArray.Grow.{IsPlentiful}
use kernel_bypass_group_proj.Superseded.Processing.{
  HashMap, MapLaws, Registry, insert_client_info_to_map, get_from_map,
}
use kernel_bypass_group_proj.Superseded.Processing.Lookup.{HasRoom, waiting, get_from_map-insert}
use kernel_bypass_group_proj.Superseded.Api.{
  ClientInfo, Limits, Junk, OldState, insert_ukey, old_app_send, old_send_group, old_add_key,
  old_server_in,
}
use kernel_bypass_group_proj.Superseded.Api.Received.{Holds, value_text}
use kernel_bypass_group_proj.Superseded.Api.Replies.{IsReachable, Replied}
use kernel_bypass_group_proj.Superseded.Api.Fanout.{old_server_in-Replied}

length-take : {A : Type 0} (n : ℕ) (xs : List A) → n ≤ length xs → length (take n xs) ≡ n
length-take zero xs h = refl
length-take (suc n) [] h = absurd (omega arith)
length-take (suc n) (x ∷ xs) h = ap suc (length-take n xs (omega arith))

module _ (d : Dpdk) (h : HashMap) (mem : Memory ClientInfo) (c : Limits) (junk : Junk) where
  old_send_group-registry :
      (p : Ptr) (udph : ℕ) (s : OldState h.Map)
      → Ensures (λ t. t.registry ≡ s.registry) (old_send_group d h mem c junk p udph s)
  unfolding old_send_group
  old_send_group-registry p udph s =
      branch (ltb (length (construct_keys_packet s.ukey)) c.max_length)
        (bind
          (old_app_send d c junk (log s.world (refcnt_update p 1)) p udph
            (construct_keys_packet s.ukey) s.request_id (ip_str_to_int d target_ip_text))
          _ (λ w e. gives refl))
        fails

  -- What becomes of the registry, whether or not the group is sent.
  old_add_key-registry :
      (p : Ptr) (udph : ℕ) (client : ClientInfo) (key : Bytes) (s : OldState h.Map)
      (r : Registry h.Map ClientInfo)
      → insert_client_info_to_map h mem max_key_length s.registry key s.request_id client ≡ some r
      → Ensures (λ t. t.registry ≡ r) (old_add_key d h mem c junk p udph client key s)
  unfolding old_add_key
  old_add_key-registry p udph client key s r kept =
      rw (old_add_key, kept)
        (bind (insert_ukey d c key s.ukey) _ (λ ukey e.
          branch (leb c.group_size (length ukey))
            (old_send_group-registry p udph (record s { registry = r; ukey = ukey })) (gives refl)))

  module _ (large : c.max_length < 2 ^ 16)
      (local_small : ip_str_to_int d local_ip_text < 2 ^ 32) where
    -- The old middlebox, from a client's key to the reply. For a hash map that finds what was stored
    -- last under an unchanged key, a map that has been created, enough memory, tables that have room
    -- for one more client, a signature that fits its array, and a MAX_LENGTH and a local address
    -- that fit their widths: once app_client_in has taken a client's key under a request id, whether
    -- or not that filled the group, then in any state with that table of clients, a reply of
    -- memcached for that key and id that stands in a buffer, has no NUL and fits MAX_LENGTH and
    -- MAX_PAYLOAD_LEN makes app_server_in send one datagram to each client that waited before, in
    -- order, and then to this one, each with its own request id and the whole reply, if all of them
    -- are in the ARP table; the reference count is changed once, by the number of clients less one
    -- as a uint16_t, and no other buffer changes.
    pub asked-Replied :
        (p q : Ptr) (udph : ℕ) (client : ClientInfo) (key rest : Bytes) (s t u : OldState h.Map)
        (map : h.Map) (limit : ℕ)
        → MapLaws h
        → IsPlentiful mem limit
        → 1 ≤ limit
        → s.registry.client_info_map ≡ some map
        → s.registry.pool ≢ []
        → HasRoom h mem max_key_length s.registry map limit
        → length (signature s.request_id key) < max_key_length
        → old_add_key d h mem c junk p udph client key s ≡ some t
        → u.registry ≡ t.registry
        → Holds u.world q s.request_id (value_text key rest)
        → IsKey key
        → All (λ x. x ≢ 0) (value_text key rest)
        → length (value_text key rest) + 10 ≤ c.max_length
        → length (value_text key rest) ≤ max_payload_len
        → let clients =
            waiting h mem max_key_length s.registry map (signature s.request_id key)
            ++ client ∷ [] in
          All (IsReachable u.world.arp) clients
          → (v : OldState h.Map) × (events : List Event) × (old_server_in d h mem c junk q 34 u
              ≡ some v)
            × (v.world.trace
                ≡ u.world.trace
                  ++ refcnt_update q ((length clients + 2 ^ 16 - 1) % 2 ^ 16) ∷ events)
            × Replied d q u.world.arp (value_text key rest) clients events
            × ((b : Ptr) → b ≢ q → v.world.heap b ≡ u.world.heap b)
    asked-Replied p q udph client key rest s t u map limit laws plenty one created pool room fits
          added same holds is text fits_out small reach =
        let (s1, s2, table, kept, found, listed, whole) =
          get_from_map-insert h mem max_key_length s.registry map limit key s.request_id junk.result
            client laws plenty one created pool room fits in
        let registry : t.registry ≡ s1 = Ensures-some t (
          subst (Ensures (λ t'. t'.registry ≡ s1)) added
            (old_add_key-registry p udph client key s s1 kept)) in
        let count : length (elements (s2.tables table)) ≡ (s2.tables table).used =
          length-take (s2.tables table).used (s2.tables table).array whole in
        let (w, events, ran, trace, each, others) =
          old_server_in-Replied d h mem c junk large local_small q s.request_id key rest u table s2
            holds is text fits_out small
            (ap (λ r. get_from_map h mem max_key_length r key s.request_id junk.result)
                (same ∙ registry)
              ∙ found)
            whole (subst (All (IsReachable u.world.arp)) (sym listed) reach) in
        (
          record u { world = w; registry = s2 },
          events,
          ran,
          trace
              ∙ ap (λ n. u.world.trace ++ refcnt_update q ((n + 2 ^ 16 - 1) % 2 ^ 16) ∷ events)
                  (sym count ∙ ap length listed),
          subst (λ l. Replied d q u.world.arp (value_text key rest) l events) listed each,
          others,
        )
