-- ===== src/Receive/Dispatch.antt =====
-- Which packets reach the application, and what becomes of the others: eth_in, ip_in and udp_in
-- taken together.
use kernel_bypass_group_proj.Base.{
  ℕ, ◌+◌, ◌*◌, ◌%◌, ◌≡◌, refl, ◌∙◌, ap, Bool, true, false, ◌&&◌, ◌||◌, not, some, arith, ◌==◌,
  if◌then◌else◌,
}
use kernel_bypass_group_proj.Config.{target_ip_text}
use kernel_bypass_group_proj.Mem.{Mem, read16, read32, raw32}
use kernel_bypass_group_proj.Dpdk.{Dpdk, Ptr}
use kernel_bypass_group_proj.World.{World, ArpTable, free, data_of}
use kernel_bypass_group_proj.Utils.{ip_str_to_int, ip_is_multicast, get_local_ip}
use kernel_bypass_group_proj.Arp.{arp_lookup_mac, arp_in}
use kernel_bypass_group_proj.Api.State.{State, log_event}
use kernel_bypass_group_proj.Api.Client.{app_client_in}
use kernel_bypass_group_proj.Api.Server.{app_server_in}
use kernel_bypass_group_proj.Receive.{Env, is_some, udp_in, ip_in, eth_in}

-- where the UDP header of the IPv4 packet in a frame begins
abbrev pub udp_at : Mem → ℕ
udp_at m = 14 + m 14 % 16 * 4

-- The frame holds a UDP datagram to this host or to a multicast address, to the port 8080, from an
-- address that stands in the ARP table.
abbrev pub is_accepted : Dpdk → World → Mem → Bool
is_accepted d w m =
    ((read32 m 30 == get_local_ip d) || ip_is_multicast (raw32 m 30))
    && (m 23 == 17)
    && is_some (arp_lookup_mac w.arp (read32 m 26))
    && (read16 m (udp_at m + 2) == 8080)

module _ {d : Dpdk} (env : Env) (p : Ptr) (s : State d) where
  -- eth_in, ip_in and udp_in taken together: an ARP frame goes to arp_in; any other frame that is
  -- not IPv4 changes nothing and its buffer is not released; an IPv4 frame that does not hold a UDP
  -- datagram to this host or a multicast address, to the port 8080, from an address of the ARP
  -- table, is released and changes nothing else; one that does goes to app_server_in if it is from
  -- the server's address, else to app_client_in, with the UDP header behind the IP header of the
  -- length that it states.
  pub eth_in_lem :
      let m = data_of s.world p in
      eth_in env p s ≡ (
        if read16 m 12 == 0x0806
        then some (record s { world = arp_in d s.world p 14 })
        else if not (read16 m 12 == 0x0800)
        then some s
        else if not (is_accepted d s.world m)
        then some (log_event s (free p))
        else if read32 m 26 == ip_str_to_int d target_ip_text
        then app_server_in env.fuel env.key p (udp_at m) s
        else app_client_in env.buffer p (udp_at m) s)
  unfolding eth_in ip_in udp_in
  eth_in_lem = ground arith

-- The frame holds a UDP datagram with an IP header of 20 bytes to this host and the port 8080, from
-- an address that stands in the ARP table.
pub record IsInbound (d : Dpdk) (arp : ArpTable) (m : Mem) : Type 0 where
  pub ether_type : read16 m 12 ≡ 0x0800
  pub short_header : m 14 % 16 ≡ 5
  pub protocol : m 23 ≡ 17
  pub dst_addr : read32 m 30 ≡ get_local_ip d
  pub mac : Mem
  pub known : arp_lookup_mac arp (read32 m 26) ≡ some mac
  pub dst_port : read16 m 36 ≡ 8080

module _ {d : Dpdk} (env : Env) (p : Ptr) (s : State d)
    (is : IsInbound d s.world.arp (data_of s.world p)) where
  header_at : udp_at (data_of s.world p) ≡ 34
  header_at = omega (arith, is.short_header)

  inbound_accepted : is_accepted d s.world (data_of s.world p) ≡ true
  inbound_accepted =
      let m = data_of s.world p in
      let known : is_some (arp_lookup_mac s.world.arp (read32 m 26)) ≡ true = rw is.known refl in
      let port : read16 m (udp_at m + 2) ≡ 8080 =
        ap (λ (o : ℕ). read16 m (o + 2)) header_at ∙ is.dst_port in
      all_four (read32 m 30) (get_local_ip d) (ip_is_multicast (raw32 m 30)) (m 23)
        (is_some (arp_lookup_mac s.world.arp (read32 m 26))) (read16 m (udp_at m + 2)) is.dst_addr
        is.protocol known port
    where
      all_four :
          (dst local : ℕ) (multicast : Bool) (protocol : ℕ) (found : Bool) (port : ℕ)
          → dst ≡ local
          → protocol ≡ 17
          → found ≡ true
          → port ≡ 8080
          → (((dst == local) || multicast) && (protocol == 17) && found && (port == 8080)) ≡ true
      all_four dst local multicast protocol found port a b c e = ground arith

  -- Such a frame goes to the application.
  pub eth_in-inbound : eth_in env p s ≡ (
      if read32 (data_of s.world p) 26 == ip_str_to_int d target_ip_text
      then app_server_in env.fuel env.key p 34 s
      else app_client_in env.buffer p 34 s)
  eth_in-inbound =
      let m = data_of s.world p in
      let not_arp : (read16 m 12 == 0x0806) ≡ false = test_ne is.ether_type in
      let is_ip : (read16 m 12 == 0x0800) ≡ true = test_eq is.ether_type in
      eth_in_lem env p s
      ∙ rw (not_arp, is_ip, inbound_accepted)
          (ap
            (λ (o : ℕ).
              if read32 m 26 == ip_str_to_int d target_ip_text
              then app_server_in env.fuel env.key p o s
              else app_client_in env.buffer p o s)
            header_at)
    where
      test_ne : {n : ℕ} → n ≡ 0x0800 → (n == 0x0806) ≡ false
      test_ne e = ground arith

      test_eq : {n : ℕ} → n ≡ 0x0800 → (n == 0x0800) ≡ true
      test_eq e = ground arith
