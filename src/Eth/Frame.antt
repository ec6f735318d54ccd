-- ===== src/Eth/Frame.antt =====
-- What eth_out does: one transmission, of the buffer with its Ethernet header filled in.
use kernel_bypass_group_proj.Base.{
  ℕ, ◌+◌, ◌%◌, ◌^◌, ◌≡◌, refl, ◌∙◌, ap, [], ◌∷◌, ◌++◌, arith, ==_refl,
}
use kernel_bypass_group_proj.Mem.{Mem}
use kernel_bypass_group_proj.Dpdk.{Dpdk, Ptr}
use kernel_bypass_group_proj.World.{World, Mbuf, transmit, data_of, set_data}
use kernel_bypass_group_proj.World.Laws.{heap-set_mbuf, data_of-set_data, Sent}
use kernel_bypass_group_proj.Eth.{fill_ether_hdr, eth_out}

module _ (d : Dpdk) (w : World) (p : Ptr) (h_proto : ℕ) (mac : Mem) (len : ℕ) where
  pub eth_out-trace :
      (eth_out d w p h_proto mac len).trace
      ≡ w.trace
        ++ transmit p (fill_ether_hdr d (data_of w p) h_proto mac) ((len + 14) % 2 ^ 16) ∷ []
  unfolding eth_out
  eth_out-trace = rw (==_refl p)

  pub eth_out-data :
      data_of (eth_out d w p h_proto mac len) p ≡ fill_ether_hdr d (data_of w p) h_proto mac
  unfolding eth_out
  eth_out-data =
      let m = fill_ether_hdr d (data_of w p) h_proto mac in
      let w1 = set_data w p m in
      ap (λ (b : Mbuf). b.contents) (heap-set_mbuf w1 p _) ∙ data_of-set_data w p m

  pub eth_out-Sent :
      Sent w p
        (fill_ether_hdr d (data_of w p) h_proto mac)
        ((len + 14) % 2 ^ 16)
        (eth_out d w p h_proto mac len)
  eth_out-Sent = record {
    trace = eth_out-trace;
    filled = eth_out-data;
    next = unfold eth_out in rw (==_refl p);
    others = λ q ne. unfold eth_out in ground arith;
    pool = unfold eth_out in refl;
    arp = unfold eth_out in refl;
  }
