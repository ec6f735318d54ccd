-- ===== src/Arp/Answer.antt =====
-- The answer to an ARP request: who is asked, who answers, and to whom.
use kernel_bypass_group_proj.Base.{
  ℕ, zero, suc, ◌+◌, ◌^◌, ◌<◌, ◌≡◌, refl, [], ◌∷◌, ◌++◌, append-nil, ◌&&◌, ◌==◌, if◌then◌else◌,
  arith,
}
use kernel_bypass_group_proj.Mem.{Mem, read16, read32}
use kernel_bypass_group_proj.Dpdk.{Dpdk, Ptr}
use kernel_bypass_group_proj.World.{World, transmit, data_of, set_data}
use kernel_bypass_group_proj.World.Laws.{data_of-set_data}
use kernel_bypass_group_proj.Utils.{get_local_ip, get_local_mac}
use kernel_bypass_group_proj.Eth.{fill_ether_hdr}
use kernel_bypass_group_proj.Eth.Frame.{eth_out-trace}
use kernel_bypass_group_proj.Arp.{fill_arp_hdr, arp_in, arp_out, rte_ether_type_arp}

-- `f` answers the request `m`: an ARP reply, from this host's addresses, to the requester's.
pub record IsAnswer (d : Dpdk) (m f : Mem) : Type 0 where
  pub ether_dst : (i : ℕ) → i < 6 → f i ≡ m (22 + i)
  pub ether_src : (i : ℕ) → i < 6 → f (6 + i) ≡ get_local_mac d i
  pub ether_type : read16 f 12 ≡ 0x0806
  pub opcode : read16 f 20 ≡ 2
  pub sender_mac : (i : ℕ) → i < 6 → f (22 + i) ≡ get_local_mac d i
  pub sender_ip : read32 f 28 ≡ get_local_ip d
  pub target_mac : (i : ℕ) → i < 6 → f (32 + i) ≡ m (22 + i)
  pub target_ip : read32 f 38 ≡ read32 m 28
  pub same_kind : (i : ℕ) → i < 6 → f (14 + i) ≡ m (14 + i)

-- six places, one by one
pub below_six : (P : ℕ → Type 0) → P 0 → P 1 → P 2 → P 3 → P 4 → P 5 → (i : ℕ) → i < 6 → P i
below_six P a b c e f g zero h = a
below_six P a b c e f g (suc zero) h = b
below_six P a b c e f g (suc (suc zero)) h = c
below_six P a b c e f g (suc (suc (suc zero))) h = e
below_six P a b c e f g (suc (suc (suc (suc zero)))) h = f
below_six P a b c e f g (suc (suc (suc (suc (suc zero))))) h = g
below_six P a b c e f g (suc (suc (suc (suc (suc (suc i)))))) h = absurd (omega arith)

abbrev request_filled : Dpdk → Mem → Mem
request_filled d m = fill_arp_hdr d m 14 2 (read32 m 28) 22

-- the frame that answers the request `m`
abbrev pub answer : Dpdk → Mem → Mem
answer d m =
    fill_ether_hdr d (request_filled d m) rte_ether_type_arp (λ i. request_filled d m (32 + i))

answer-IsAnswer :
    (d : Dpdk) (m : Mem)
    → ((a : ℕ) → m a < 256)
    → get_local_ip d < 2 ^ 32
    → IsAnswer d m (answer d m)
unfolding fill_arp_hdr fill_ether_hdr
answer-IsAnswer d m bytes small = record {
  ether_dst = below_six (λ i. answer d m i ≡ m (22 + i)) refl refl refl refl refl refl;
  ether_src = below_six (λ i. answer d m (6 + i) ≡ get_local_mac d i) refl refl refl refl refl refl;
  ether_type = refl;
  opcode = refl;
  sender_mac =
      below_six (λ i. answer d m (22 + i) ≡ get_local_mac d i) refl refl refl refl refl refl;
  sender_ip = omega arith;
  target_mac = below_six (λ i. answer d m (32 + i) ≡ m (22 + i)) refl refl refl refl refl refl;
  target_ip = omega (arith, bytes 28, bytes 29, bytes 30, bytes 31);
  same_kind = below_six (λ i. answer d m (14 + i) ≡ m (14 + i)) refl refl refl refl refl refl;
}

module _ (d : Dpdk) (w : World) (p : Ptr) where
  -- For a packet of bytes and a 32-bit local address, there is a frame that answers it, an ARP reply
  -- from this host's addresses to the sender's, and arp_in transmits just that frame of 42 bytes
  -- from the packet's buffer if the packet is a request for this host's address; else it neither
  -- transmits nor releases anything.
  pub arp_in_lem :
      ((a : ℕ) → data_of w p a < 256)
      → get_local_ip d < 2 ^ 32
      → let m = data_of w p in
        (f : Mem) × IsAnswer d m f
        × ((arp_in d w p 14).trace
            ≡ w.trace
              ++ (if (read32 m 38 == get_local_ip d) && (read16 m 20 == 1)
                  then transmit p f 42 ∷ []
                  else []))
  unfolding arp_in arp_out
  arp_in_lem bytes small = (
    answer d (data_of w p),
    answer-IsAnswer d (data_of w p) bytes small,
    ground (
      arith,
      append-nil w.trace,
      eth_out-trace d (set_data w p (request_filled d (data_of w p))) p rte_ether_type_arp
          (λ i. request_filled d (data_of w p) (32 + i)) 28,
      data_of-set_data w p (request_filled d (data_of w p)),
    ),
  )
