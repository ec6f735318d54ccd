-- ===== src/Receive/Sound.antt =====
-- The invariant of the application over whole runs of lcore_main.
use kernel_bypass_group_proj.Base.{ℕ, ◌<◌, ◌≡◌, List, [], ◌∷◌, some, refl, arith, length, not, ◌==◌}
use kernel_bypass_group_proj.Base.Results.{Ensures, Ensures-some, gives, follow, branch}
use kernel_bypass_group_proj.Config.{target_ip_text, max_key_length}
use kernel_bypass_group_proj.Mem.{read16, read32}
use kernel_bypass_group_proj.Dpdk.{Dpdk, Laws, Ptr}
use kernel_bypass_group_proj.World.{World, Mbuf, data_of, set_mbuf}
use kernel_bypass_group_proj.Utils.{ip_str_to_int}
use kernel_bypass_group_proj.Api.State.{State, init_hashmap}
use kernel_bypass_group_proj.Api.Keys.{c_str}
use kernel_bypass_group_proj.Api.Sound.{IsSound}
use kernel_bypass_group_proj.Api.Sound.Client.{app_client_in-IsSound}
use kernel_bypass_group_proj.Api.Sound.Server.{app_server_in-IsSound, refresh_backlog-IsSound}
use kernel_bypass_group_proj.Receive.{Env, eth_in, arrive_all, take_burst, poll, lcore_main}
use kernel_bypass_group_proj.Receive.Dispatch.{eth_in_lem, udp_at, is_accepted}

module _ {d : Dpdk} (laws : Laws d) (env : Env)
    (short : length (c_str env.buffer) < max_key_length) where
  eth_in-IsSound : (p : Ptr) (s : State d) → IsSound s → Ensures IsSound (eth_in env p s)
  eth_in-IsSound p s is =
      let m = data_of s.world p in
      rw (eth_in_lem env p s) (
        branch (read16 m 12 == 0x0806) (gives is) (
          branch (not (read16 m 12 == 0x0800)) (gives is) (
            branch (not (is_accepted d s.world m)) (gives is) (
              branch (read32 m 26 == ip_str_to_int d target_ip_text)
                (app_server_in-IsSound laws env.fuel env.key p (udp_at m) s is)
                (app_client_in-IsSound laws env.buffer p (udp_at m) s is short)))))

  take_burst-IsSound :
      (burst : List (Ptr × Mbuf)) (s : State d)
      → IsSound s
      → Ensures IsSound (take_burst env burst s)
  unfolding take_burst
  take_burst-IsSound [] s is = gives is
  take_burst-IsSound (b ∷ bs) s is =
      follow _ (refresh_backlog-IsSound s is)
        (λ s1 is1. follow _ (eth_in-IsSound b.0 s1 is1) (λ s2 is2. take_burst-IsSound bs s2 is2))

  arrive_all-IsSound :
      (burst : List (Ptr × Mbuf)) (s : State d) → IsSound s → IsSound (arrive_all env burst s)
  arrive_all-IsSound [] s is = is
  arrive_all-IsSound (b ∷ bs) s is =
      arrive_all-IsSound bs (record s { world = set_mbuf s.world b.0 b.1 }) is

  -- Any sequence of bursts keeps the invariant.
  pub lcore_main-IsSound :
      (bursts : List (List (Ptr × Mbuf))) (s : State d)
      → IsSound s
      → Ensures IsSound (lcore_main env bursts s)
  unfolding lcore_main poll
  lcore_main-IsSound [] s is = gives is
  lcore_main-IsSound (burst ∷ bursts) s is =
      follow _
        (follow _ (refresh_backlog-IsSound s is) (λ s1 is1.
          take_burst-IsSound burst (arrive_all env burst s1) (arrive_all-IsSound burst s1 is1)))
        (λ s2 is2. lcore_main-IsSound bursts s2 is2)

pub init_hashmap-IsSound :
    (d : Dpdk) (w : World) (clock_at : ℕ → ℕ) → Laws d → IsSound (init_hashmap d w clock_at)
unfolding init_hashmap
init_hashmap-IsSound d w clock_at laws = (
  record { distinct = tt; short = tt; few = ground arith; size_exact = refl; room = ground arith },
  ground arith,
  record { listed = λ j there. absurd (there (laws.lookup-empty j)); ptr_in = ground arith },
)

-- For a hash table with the laws of rte_hash, and an uninitialised key buffer that holds a text
-- shorter than its size: whatever bursts of whatever packets lcore_main takes from the start, in the
-- state that it reaches the group holds distinct keys that fit their rows, no more than there are
-- rows, their number of bytes is exactly what total_ukey_size says and at most 1458 with the
-- separators, the next request id is below MAX_REQ_ID, and every key of the table stands in
-- LRU_queue.
pub lcore_main-start-IsSound :
    {d : Dpdk} (laws : Laws d) (env : Env) (w : World) (clock_at : ℕ → ℕ)
    (bursts : List (List (Ptr × Mbuf))) (s : State d)
    → length (c_str env.buffer) < max_key_length
    → lcore_main env bursts (init_hashmap d w clock_at) ≡ some s
    → IsSound s
lcore_main-start-IsSound {d} laws env w clock_at bursts s short e = Ensures-some {P = IsSound} s (
    rw (← e) (
      lcore_main-IsSound laws env short bursts (init_hashmap d w clock_at)
        (init_hashmap-IsSound d w clock_at laws)))
