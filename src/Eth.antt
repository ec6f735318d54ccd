-- ===== src/Eth.antt =====
-- middlebox/src/eth.c, towards the wire: eth_out and dpdk_eth_send. (eth_in is in Receive.) The
-- loop of dpdk_eth_send ends when rte_eth_tx_burst takes the packet: the model says that it does.
pub mod Frame
use kernel_bypass_group_proj.Base.{ℕ, ◌+◌, ◌%◌, ◌^◌}
use kernel_bypass_group_proj.Config.{ether_hdr_size}
use kernel_bypass_group_proj.Mem.{Mem, memcpy, write16}
use kernel_bypass_group_proj.Dpdk.{Dpdk, Ptr}
use kernel_bypass_group_proj.World.{World, transmit, log, set_mbuf, data_of, set_data}
use kernel_bypass_group_proj.Utils.{get_local_mac}

unfoldable pub dpdk_eth_send : World → Ptr → ℕ → World
dpdk_eth_send w p len =
    let b = record (w.heap p) { pkt_len = len; data_len = len } in
    log (set_mbuf w p b) (transmit p b.contents len)

-- what the header of the frame becomes
unfoldable pub fill_ether_hdr : Dpdk → Mem → ℕ → Mem → Mem
fill_ether_hdr d m h_proto dst_haddr =
    write16 (memcpy (memcpy m 0 dst_haddr 6) 6 (get_local_mac d) 6) 12 h_proto

unfoldable pub eth_out : Dpdk → World → Ptr → ℕ → Mem → ℕ → World
unfolding fill_ether_hdr dpdk_eth_send
eth_out d w p h_proto dst_haddr iplen =
    dpdk_eth_send (set_data w p (fill_ether_hdr d (data_of w p) h_proto dst_haddr)) p
      ((iplen + ether_hdr_size) % 2 ^ 16)
