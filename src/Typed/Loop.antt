-- ===== src/Typed/Loop.antt =====
-- The types of the variables over whole runs of lcore_main.
use kernel_bypass_group_proj.Base.{ℕ, ◌≡◌, List, [], ◌∷◌, some, arith, not, ◌==◌, All}
use kernel_bypass_group_proj.Base.Results.{Ensures, Ensures-some, gives, follow, branch}
use kernel_bypass_group_proj.Config.{target_ip_text, ether_hdr_size}
use kernel_bypass_group_proj.Mem.{read16, read32}
use kernel_bypass_group_proj.Dpdk.{Dpdk, Ptr}
use kernel_bypass_group_proj.World.{World, Mbuf, free, data_of, set_mbuf}
use kernel_bypass_group_proj.Arp.{arp_in}
use kernel_bypass_group_proj.Utils.{ip_str_to_int}
use kernel_bypass_group_proj.Api.State.{State, init_hashmap, log_event}
use kernel_bypass_group_proj.Receive.{Env, eth_in, arrive_all, take_burst, poll, lcore_main}
use kernel_bypass_group_proj.Receive.Dispatch.{eth_in_lem, udp_at, is_accepted}
use kernel_bypass_group_proj.Typed.{
  AreBytes, IsByteText, IsByteDpdk, HoldsBytes, IsTyped, IsTyped-world, set_mbuf-HoldsBytes,
}
use kernel_bypass_group_proj.Typed.Network.{arp_in-HoldsBytes, log-HoldsBytes}
use kernel_bypass_group_proj.Typed.Client.{app_client_in-IsTyped}
use kernel_bypass_group_proj.Typed.Server.{app_server_in-IsTyped, refresh_backlog-IsTyped}

-- A burst of packets, which hold bytes.
abbrev pub AreBytePackets : List (Ptr × Mbuf) → Type 0
AreBytePackets burst = All (λ b. AreBytes b.1.contents) burst

module _ {d : Dpdk} (ok : IsByteDpdk d) (env : Env) (text : IsByteText env.buffer) where
  eth_in-IsTyped : (p : Ptr) (s : State d) → IsTyped s → Ensures IsTyped (eth_in env p s)
  eth_in-IsTyped p s is =
      let m = data_of s.world p in
      let dropped : Ensures IsTyped (some (log_event s (free p))) =
        gives (IsTyped-world s _ is (log-HoldsBytes s.world _ is.world)) in
      let answered : Ensures IsTyped
          (some (record s { world = arp_in d s.world p ether_hdr_size })) =
        gives (IsTyped-world s _ is (arp_in-HoldsBytes ok s.world p _ is.world)) in
      rw (eth_in_lem env p s) (
        branch (read16 m 12 == 0x0806) answered (
          branch (not (read16 m 12 == 0x0800)) (gives is) (
            branch (not (is_accepted d s.world m)) dropped (
              branch (read32 m 26 == ip_str_to_int d target_ip_text)
                (app_server_in-IsTyped ok env.fuel env.key p (udp_at m) s is)
                (app_client_in-IsTyped ok env.buffer p (udp_at m) s is text)))))

  take_burst-IsTyped :
      (burst : List (Ptr × Mbuf)) (s : State d)
      → IsTyped s
      → Ensures IsTyped (take_burst env burst s)
  unfolding take_burst
  take_burst-IsTyped [] s is = gives is
  take_burst-IsTyped (b ∷ bs) s is =
      follow _ (refresh_backlog-IsTyped ok s is)
        (λ s1 is1. follow _ (eth_in-IsTyped b.0 s1 is1) (take_burst-IsTyped bs))

  arrive_all-IsTyped :
      (burst : List (Ptr × Mbuf)) (s : State d)
      → IsTyped s
      → AreBytePackets burst
      → IsTyped (arrive_all env burst s)
  arrive_all-IsTyped [] s is bytes = is
  arrive_all-IsTyped (b ∷ bs) s is bytes =
      arrive_all-IsTyped bs (record s { world = set_mbuf s.world b.0 b.1 })
        (IsTyped-world s _ is (set_mbuf-HoldsBytes s.world b.0 b.1 is.world bytes.0)) bytes.1

  lcore_main-keeps-IsTyped :
      (bursts : List (List (Ptr × Mbuf))) (s : State d)
      → IsTyped s
      → All AreBytePackets bursts
      → Ensures IsTyped (lcore_main env bursts s)
  unfolding lcore_main poll
  lcore_main-keeps-IsTyped [] s is bytes = gives is
  lcore_main-keeps-IsTyped (burst ∷ bursts) s is bytes =
      follow _
        (follow _ (refresh_backlog-IsTyped ok s is) (λ s1 is1.
          take_burst-IsTyped burst (arrive_all env burst s1)
            (arrive_all-IsTyped burst s1 is1 bytes.0)))
        (λ s2 is2. lcore_main-keeps-IsTyped bursts s2 is2 bytes.1)

init_hashmap-IsTyped :
    (d : Dpdk) (w : World) (clock_at : ℕ → ℕ) → HoldsBytes w → IsTyped (init_hashmap d w clock_at)
unfolding init_hashmap
init_hashmap-IsTyped d w clock_at h = record {
  world = h;
  ukey = tt;
  ukey_len = ground arith;
  total_ukey_size = ground arith;
  request_id = ground arith;
  outstanding_req = ground arith;
  pkt_counts = λ i. ground arith;
  keys_sent = λ i. ground arith;
  keys_rcvd = λ i. ground arith;
  last_seq_id = ground arith;
}

-- Where the memory, the addresses of the hosts, what DPDK lays out, the uninitialised key buffer
-- and every packet that comes are bytes: whatever bursts lcore_main takes from the start, in the
-- state that it reaches every buffer and every address of a host still holds bytes, so do the keys
-- of the group, of which there are at most MAP_ENTRIES, the sizes, ids and counters that are
-- `uint16_t` are below 2^16, and every count of keys that have come is within `int16_t`.
pub lcore_main-IsTyped :
    {d : Dpdk} (env : Env) (w : World) (clock_at : ℕ → ℕ) (bursts : List (List (Ptr × Mbuf)))
    (s : State d)
    → IsByteDpdk d
    → HoldsBytes w
    → IsByteText env.buffer
    → All AreBytePackets bursts
    → lcore_main env bursts (init_hashmap d w clock_at) ≡ some s
    → IsTyped s
lcore_main-IsTyped {d} env w clock_at bursts s ok h text bytes e = Ensures-some {P = IsTyped} s (
    rw (← e) (
      lcore_main-keeps-IsTyped ok env text bursts (init_hashmap d w clock_at)
        (init_hashmap-IsTyped d w clock_at h) bytes))
