-- ===== src/Api/Client.antt =====
-- middlebox/src/api.c, init_memcached_pkt and app_client_in: a client's request joins the group.
-- `garbage` is what the uninitialised `buffer` of strip_keys holds. `none` is a write past the end
-- of an array, a NULL packet that is read or written, or a failed assert.
pub mod Queue
pub mod Same
pub mod Add
pub mod Start
pub mod Refused
use kernel_bypass_group_proj.Base.{
  ℕ, suc, ◌+◌, ◌-◌, ◌%◌, Bytes, List, [], ◌∷◌, Option, none, some, Bool, true, false, ◌==◌, leb,
  ltb, if◌then◌else◌, length,
}
use kernel_bypass_group_proj.Config.{map_entries, max_payload_len, gets_len, min_outstanding_req}
use kernel_bypass_group_proj.Mem.{Mem, slice}
use kernel_bypass_group_proj.Dpdk.{Dpdk, Ptr, null}
use kernel_bypass_group_proj.World.{World, free, log, data_of, set_mbuf}
use kernel_bypass_group_proj.Api.State.{State, update, log_event, copy_mbuf, copy_small, ◌>>=◌}
use kernel_bypass_group_proj.Api.Keys.{strip_keys}
use kernel_bypass_group_proj.Api.Payload.{init_rcv_app_payload}
use kernel_bypass_group_proj.Api.Signature.{print_signature}
use kernel_bypass_group_proj.Api.Group.{insert_ukey_group}
use kernel_bypass_group_proj.Api.Flush.{construct_pkt_and_send_to_server}

module _ {d : Dpdk} where
  unfoldable pub init_memcached_pkt : Ptr → State d → State d
  init_memcached_pkt pkt_buf s =
      if s.memcached_pkt == null
      then (let (q, w) = copy_mbuf s.world pkt_buf in record s { world = w; memcached_pkt = q })
      else s

  -- The first key of a packet uses the packet itself, each other one a copy in small buffers. (Where
  -- that is a chain of segments, chain_to cuts off those behind the first one; where the key is new,
  -- it stays a chain.)
  unfoldable pub current_buf : Bool → Ptr → State d → Ptr × State d
  current_buf true pkt_buf s = (pkt_buf, s)
  current_buf false pkt_buf s =
      let (q, w) = copy_small s.world pkt_buf in (q, record s { world = w })

  -- What gives way to a new key: the entry that the oldest slot of the queue names, if it is there.
  unfoldable pub evict : State d → State d
  evict s = elim (d.lookup_data s.client_pkts (s.lru_queue s.lru_ptr)) [
    | none ↦ s
    | some (_, lru_buf) ↦
        log_event (record s { client_pkts = d.del_key s.client_pkts (s.lru_queue s.lru_ptr) })
          (free lru_buf)
  ]

  unfoldable pub enqueue : State d → State d
  unfolding evict
  enqueue s =
      let s' = evict s in
      record s' {
        lru_queue = update s'.lru_queue s'.lru_ptr s'.key_hold;
        lru_ptr = (s'.lru_ptr + 1) % map_entries;
      }

  -- `curr_buf->next = first_buf;`
  unfoldable pub chain_to : Ptr → Ptr → State d → Option (State d)
  chain_to curr_buf first_buf s =
      if curr_buf == null
      then none
      else some (record s {
        world = set_mbuf s.world curr_buf (record (s.world.heap curr_buf) { next = first_buf });
      })

  -- the writes once the table has been asked for `key_hold`
  unfoldable pub register : Option (ℕ × Ptr) → Ptr → State d → Option (State d)
  unfolding enqueue chain_to
  register none curr_buf s =
      let s' = enqueue s in
      some (record s' { client_pkts = d.add_key_data s'.client_pkts s'.key_hold curr_buf })
  register (some (_, first_buf)) curr_buf s =
      chain_to curr_buf first_buf
        (record s { client_pkts = d.add_key_data s.client_pkts s.key_hold curr_buf })

  -- `pkt_counts[rte_hash_lookup(client_pkts, key_hold)] = 1;`
  unfoldable pub reset_count : State d → Option (State d)
  reset_count s = elim (d.lookup_data s.client_pkts s.key_hold) [
    | none ↦ none
    | some (position, _) ↦ some (record s { pkt_counts = update s.pkt_counts position 1 })
  ]

  -- The group with its spaces and the command has reached the maximum. (The right side is computed
  -- in size_t and, at no more than MAP_ENTRIES keys, does not wrap.)
  unfoldable pub is_full : State d → Bool
  is_full s = leb (max_payload_len - gets_len - length s.ukey + 1) s.total_ukey_size

  -- one round of the `for` loop of app_client_in
  unfoldable pub add_key : Bool → Ptr → Bytes → State d → Option (State d)
  add_key is_first pkt_buf key s = do
    s ← insert_ukey_group key s
    sig ← print_signature s.request_id key
    let (curr_buf, s) = current_buf is_first pkt_buf (record s { key_hold = sig })
    s ← register (d.lookup_data s.client_pkts s.key_hold) curr_buf s
    s ← reset_count s
    if is_full s then construct_pkt_and_send_to_server true s else some s

  unfoldable pub add_keys : Bool → Ptr → List Bytes → State d → Option (State d)
  unfolding add_key
  add_keys is_first pkt_buf [] s = some s
  add_keys is_first pkt_buf (k ∷ ks) s = add_key is_first pkt_buf k s >>= add_keys false pkt_buf ks

  unfoldable pub app_client_in : Bytes → Ptr → ℕ → State d → Option (State d)
  unfolding init_memcached_pkt add_keys
  app_client_in garbage pkt_buf udph s =
      let m = data_of s.world pkt_buf in
      elim (init_rcv_app_payload m udph) [
        | none ↦ some (log_event s (free pkt_buf))
        | some ap ↦ do
          keys ← strip_keys garbage (slice m ap.payload ap.msg_len)
          s ← add_keys true pkt_buf keys (init_memcached_pkt pkt_buf s)
          if ltb s.outstanding_req min_outstanding_req
              then construct_pkt_and_send_to_server false s
              else some s
      ]
