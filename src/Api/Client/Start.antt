-- ===== src/Api/Client/Start.antt =====
-- The state that main sets up, before the first packet: api.c's static variables and init_hashmap.
use kernel_bypass_group_proj.Base.{ℕ, ◌<◌, ◌≡◌, refl, Bytes, none, some, false, arith}
use kernel_bypass_group_proj.Config.{max_req_id}
use kernel_bypass_group_proj.Dpdk.{Dpdk, Laws}
use kernel_bypass_group_proj.World.{World}
use kernel_bypass_group_proj.Api.State.{init_hashmap}
use kernel_bypass_group_proj.Api.Group.Bounds.{IsGroup}
use kernel_bypass_group_proj.Api.Client.Queue.{IsListed}
use kernel_bypass_group_proj.Api.Flush.{construct_pkt_and_send_to_server}

-- For a hash table with the laws of rte_hash, the state before the first packet is well-formed: the
-- group is valid, every key of the table stands in LRU_queue since no key is found in it, the
-- request id is in range, and there is nothing to send.
init_hashmap_lem :
    (d : Dpdk) (w : World) (clock_at : ℕ → ℕ)
    → Laws d
    → let s = init_hashmap d w clock_at in
      IsGroup s.ukey s.total_ukey_size
      × IsListed d s.client_pkts s.lru_queue s.lru_ptr
      × (s.request_id < max_req_id)
      × ((k : Bytes) → d.lookup_data s.client_pkts k ≡ none)
      × (construct_pkt_and_send_to_server false s ≡ some s)
unfolding init_hashmap construct_pkt_and_send_to_server
init_hashmap_lem d w clock_at laws = (
  record { distinct = tt; keys = tt; size_exact = refl; room = omega arith },
  record { listed = λ j there. absurd (there (laws.lookup-empty j)); ptr_in = ground arith },
  ground arith,
  laws.lookup-empty,
  refl,
)
