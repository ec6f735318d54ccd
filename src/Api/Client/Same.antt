-- ===== src/Api/Client/Same.antt =====
-- What a registration in the table of waiting clients leaves alone.
use kernel_bypass_group_proj.Base.{
  ◌⊎◌, ◌++◌, [], ◌∷◌, ℕ, ◌≡◌, refl, ◌∙◌, ap, inl, inr, Bytes, Option, some, none, Option-cases,
}
use kernel_bypass_group_proj.Dpdk.{Dpdk, Ptr}
use kernel_bypass_group_proj.World.{free}
use kernel_bypass_group_proj.Api.State.{State, log_event, update}
use kernel_bypass_group_proj.Api.Client.{evict, enqueue, register, reset_count}

-- What a registration leaves alone.
pub record IsSame {d : Dpdk} (s s' : State d) : Type 0 where
  pub same_key : s'.key_hold ≡ s.key_hold
  pub same_ukey : s'.ukey ≡ s.ukey
  pub same_size : s'.total_ukey_size ≡ s.total_ukey_size
  pub same_id : s'.request_id ≡ s.request_id
  pub same_template : s'.memcached_pkt ≡ s.memcached_pkt
  pub same_heap : s'.world.heap ≡ s.world.heap
  pub same_arp : s'.world.arp ≡ s.world.arp
  pub same_pool : s'.world.pool ≡ s.world.pool
  pub same_outstanding : s'.outstanding_req ≡ s.outstanding_req
  -- at most one buffer is released, and nothing is transmitted
  pub only_free :
      (s'.world.trace ≡ s.world.trace)
      ⊎ ((b : Ptr) × (s'.world.trace ≡ s.world.trace ++ free b ∷ []))

abbrev pub SameAs : {d : Dpdk} → State d → Option (State d) → Type 0
SameAs s none = Unit
SameAs s (some s') = IsSame s s'

evict-none :
    {d : Dpdk} (s : State d)
    → d.lookup_data s.client_pkts (s.lru_queue s.lru_ptr) ≡ none
    → evict s ≡ s
unfolding evict
evict-none s e = rw (evict, e)

evict-some :
    {d : Dpdk} (s : State d) (b : ℕ × Ptr)
    → d.lookup_data s.client_pkts (s.lru_queue s.lru_ptr) ≡ some b
    → evict s
      ≡ log_event
          (record s { client_pkts = d.del_key s.client_pkts (s.lru_queue s.lru_ptr) })
          (free b.1)
unfolding evict
evict-some s b e = rw (evict, e)

evict-IsSame : {d : Dpdk} (s : State d) → IsSame s (evict s)
evict-IsSame {d} s = elim (Option-cases (d.lookup_data s.client_pkts (s.lru_queue s.lru_ptr))) [
  | inl e ↦ rw (evict-none s e) (record {
    same_key = refl;
    same_ukey = refl;
    same_size = refl;
    same_id = refl;
    same_template = refl;
    same_heap = refl;
    same_arp = refl;
    same_pool = refl;
    same_outstanding = refl;
    only_free = inl refl;
  })
  | inr (b, e) ↦ rw (evict-some s b e) (record {
    same_key = refl;
    same_ukey = refl;
    same_size = refl;
    same_id = refl;
    same_template = refl;
    same_heap = refl;
    same_arp = refl;
    same_pool = refl;
    same_outstanding = refl;
    only_free = inr (b.1, refl);
  })
]

pub register-SameAs : {d : Dpdk} (s : State d) (curr : Ptr) → SameAs s (register none curr s)
unfolding register enqueue
register-SameAs s curr =
    let e = evict-IsSame s in
    record {
      same_key = e.same_key;
      same_ukey = e.same_ukey;
      same_size = e.same_size;
      same_id = e.same_id;
      same_template = e.same_template;
      same_heap = e.same_heap;
      same_arp = e.same_arp;
      same_pool = e.same_pool;
      same_outstanding = e.same_outstanding;
      only_free = e.only_free;
    }

pub reset_count-some :
    {d : Dpdk} (s : State d) (sig : Bytes) (i : ℕ) (p : Ptr)
    → s.key_hold ≡ sig
    → d.lookup_data s.client_pkts sig ≡ some (i, p)
    → reset_count s ≡ some (record s { pkt_counts = update s.pkt_counts i 1 })
unfolding reset_count
reset_count-some {d} s sig i p e found =
    rw (reset_count, (ap (d.lookup_data s.client_pkts) e ∙ found))
