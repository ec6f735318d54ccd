-- ===== src/World.antt =====
-- What the functions of all layers share: the packet buffers and what has been done with them, and
-- the table of known hardware addresses. DPDK's own book-keeping is not modelled: a release, a
-- change of a reference count and a transmission are events, in order. Copies are taken from
-- `pool`, the addresses that rte_pktmbuf_copy will return.
pub mod Laws
use kernel_bypass_group_proj.Base.{ℕ, List, [], ◌∷◌, ◌++◌, ◌==◌, if◌then◌else◌}
use kernel_bypass_group_proj.Mem.{Mem}
use kernel_bypass_group_proj.Dpdk.{Ptr}

-- the fields of a `struct rte_mbuf` that the program touches, and the data that it points to
pub record Mbuf : Type 0 where
  pub contents : Mem
  pub next : Ptr
  pub pkt_len : ℕ
  pub data_len : ℕ

pub data Event : Type 0 where
  -- rte_eth_tx_burst took the buffer, which held these bytes, as many as the number says
  transmit : Ptr → Mem → ℕ → Event
  -- rte_pktmbuf_free
  free : Ptr → Event
  -- rte_mbuf_refcnt_update
  refcnt_update : Ptr → ℕ → Event

-- `struct arp_entry`
pub record ArpEntry : Type 0 where
  pub addr : ℕ
  pub mac : Mem

-- `known_haddrs` and `arp_count`
pub record ArpTable : Type 0 where
  pub known_haddrs : List ArpEntry
  pub arp_count : ℕ

pub record World : Type 0 where
  pub heap : Ptr → Mbuf
  pub pool : List Ptr
  pub trace : List Event
  pub arp : ArpTable

abbrev pub log : World → Event → World
log w e = record w { trace = w.trace ++ e ∷ [] }

abbrev pub set_mbuf : World → Ptr → Mbuf → World
set_mbuf w p b = record w { heap = λ q. if q == p then b else w.heap q }

-- the data of a buffer
abbrev pub data_of : World → Ptr → Mem
data_of w p = (w.heap p).contents

abbrev pub set_data : World → Ptr → Mem → World
set_data w p m = set_mbuf w p (record (w.heap p) { contents = m })
