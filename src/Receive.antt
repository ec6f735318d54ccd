-- ===== src/Receive.antt =====
-- From the wire to the application: eth_in of middlebox/src/eth.c, ip_in of middlebox/src/ip.c,
-- udp_in of middlebox/src/udp.c, and the loop of lcore_main in middlebox/src/middlebox.c. What is
-- not the program's is an `Env`: the fuel for the chains, and what uninitialised arrays hold.
pub mod Dispatch
pub mod Sound
pub mod Run
pub mod Trip
use kernel_bypass_group_proj.Base.{
  ℕ, ◌+◌, ◌*◌, ◌%◌, Bytes, List, [], ◌∷◌, Option, none, some, Bool, true, false, ◌&&◌, ◌||◌, not,
  ◌==◌, if◌then◌else◌,
}
use kernel_bypass_group_proj.Config.{ether_hdr_size, target_ip_text, local_port}
use kernel_bypass_group_proj.Mem.{Mem, read16, read32, raw32}
use kernel_bypass_group_proj.Dpdk.{Dpdk, Ptr, null}
use kernel_bypass_group_proj.World.{World, Mbuf, free, data_of, set_mbuf}
use kernel_bypass_group_proj.Utils.{ip_str_to_int, ip_is_multicast, get_local_ip}
use kernel_bypass_group_proj.Arp.{arp_lookup_mac, arp_in, rte_ether_type_arp}
use kernel_bypass_group_proj.Ip.{rte_ether_type_ipv4, ipproto_tcp, ipproto_udp}
use kernel_bypass_group_proj.Api.State.{State, log_event, ◌>>=◌}
use kernel_bypass_group_proj.Api.Client.{app_client_in}
use kernel_bypass_group_proj.Api.Server.{app_server_in, refresh_backlog}

pub record Env : Type 0 where
  pub fuel : ℕ
  pub buffer : Bytes
  pub key : Bytes

abbrev pub is_some {ℓ} : {A : Type ℓ} → Option A → Bool
is_some none = false
is_some (some _) = true

module _ {d : Dpdk} (env : Env) where
  unfoldable pub udp_in : Ptr → ℕ → ℕ → State d → Option (State d)
  udp_in pkt_buf iph udph s =
      let m = data_of s.world pkt_buf in
      let src_addr = read32 m (iph + 12) in
      if not (is_some (arp_lookup_mac s.world.arp src_addr))
        || not (read16 m (udph + 2) == local_port)
      then some (log_event s (free pkt_buf))
      else if src_addr == ip_str_to_int d target_ip_text
      then app_server_in env.fuel env.key pkt_buf udph s
      else app_client_in env.buffer pkt_buf udph s

  unfoldable pub ip_in : Ptr → ℕ → State d → Option (State d)
  unfolding udp_in
  ip_in pkt_buf iph s =
      let m = data_of s.world pkt_buf in
      let proto = m (iph + 9) in
      if not (read32 m (iph + 16) == get_local_ip d) && not (ip_is_multicast (raw32 m (iph + 16)))
      then some (log_event s (free pkt_buf))
      else if proto == ipproto_tcp
      then some (log_event s (free pkt_buf))
      else if proto == ipproto_udp
      then udp_in pkt_buf iph (iph + m iph % 16 * 4) s
      else some (log_event s (free pkt_buf))

  unfoldable pub eth_in : Ptr → State d → Option (State d)
  unfolding ip_in
  eth_in pkt_buf s =
      let ether_type = read16 (data_of s.world pkt_buf) 12 in
      if ether_type == rte_ether_type_arp
      then some (record s { world = arp_in d s.world pkt_buf ether_hdr_size })
      else if ether_type == rte_ether_type_ipv4
      then ip_in pkt_buf ether_hdr_size s
      else some s

  -- the buffers that rte_eth_rx_burst has filled
  abbrev pub arrive_all : List (Ptr × Mbuf) → State d → State d
  arrive_all [] s = s
  arrive_all ((p, b) ∷ bs) s = arrive_all bs (record s { world = set_mbuf s.world p b })

  -- `for (...) { refresh_backlog(); eth_in(bufs[i]); }`
  unfoldable pub take_burst : List (Ptr × Mbuf) → State d → Option (State d)
  unfolding eth_in
  take_burst [] s = some s
  take_burst ((p, _) ∷ bs) s = do s ← refresh_backlog s; s ← eth_in p s; take_burst bs s

  -- one visit of a port in lcore_main, with the burst that it finds there
  unfoldable pub poll : List (Ptr × Mbuf) → State d → Option (State d)
  unfolding take_burst
  poll burst s = do s ← refresh_backlog s; take_burst burst (arrive_all burst s)

  -- the bursts of several visits
  unfoldable pub lcore_main : List (List (Ptr × Mbuf)) → State d → Option (State d)
  unfolding poll
  lcore_main [] s = some s
  lcore_main (burst ∷ bursts) s = poll burst s >>= lcore_main bursts
