-- ===== src/Typed.antt =====
-- That memory holds bytes and variables hold values of their C types: the types of the static
-- variables of middlebox/src/api.c, of packets and of the table of hosts in middlebox/src/arp.c.
pub mod Network
pub mod Copies
pub mod Client
pub mod Server
pub mod Loop
use kernel_bypass_group_proj.Base.{
  ℕ, ◌+◌, ◌-◌, ◌/◌, ◌%◌, ◌^◌, ◌≤◌, ◌<◌, ◌≡◌, ◌∙◌, ap, inl, inr, Bytes, List, some, arith, ◌==◌,
  ◌&&◌, ltb, leb, Bool-cases, length, All, if◌then◌else◌,
}
use kernel_bypass_group_proj.Base.Int.{ℤ, pos, negsuc}
use kernel_bypass_group_proj.Config.{map_entries}
use kernel_bypass_group_proj.Mem.{Mem, write8, write16, write32, memcpy}
use kernel_bypass_group_proj.Dpdk.{Dpdk, Ptr}
use kernel_bypass_group_proj.World.{World, Mbuf, ArpTable, data_of, set_mbuf}
use kernel_bypass_group_proj.World.Laws.{heap-set_mbuf, heap-set_mbuf_ne}
use kernel_bypass_group_proj.Arp.{arp_lookup_mac}
use kernel_bypass_group_proj.Ip.{write16_raw}
use kernel_bypass_group_proj.Api.State.{State}

abbrev pub AreBytes : Mem → Type 0
AreBytes m = (a : ℕ) → m a < 256

abbrev pub IsByteText : Bytes → Type 0
IsByteText s = All (λ c. c < 256) s

-- What DPDK and the compiler lay out are bytes.
pub record IsByteDpdk (d : Dpdk) : Type 0 where
  pub sge : (p : Ptr) (n : ℕ) → AreBytes (d.net_sge_image p n)
  pub tuple : (ip : ℕ) → AreBytes (d.ip_tuple_image ip)
  pub ether : (s : Bytes) → IsByteText s → AreBytes (d.ether_unformat_addr s)

-- All buffers and all hardware addresses.
pub record HoldsBytes (w : World) : Type 0 where
  pub buffers : (p : Ptr) → AreBytes (data_of w p)
  pub macs : All (λ e. AreBytes e.mac) w.arp.known_haddrs

-- a value of `int16_t`
abbrev pub IsInt16 : ℤ → Type 0
IsInt16 (pos n) = n < 2 ^ 15
IsInt16 (negsuc n) = n < 2 ^ 15

-- Every variable holds a value of its type; `ukey` holds bytes, and no more rows than it has.
pub record IsTypedAs (w : World) (keys : List Bytes) (size id outstanding : ℕ) (counts sent : ℕ → ℕ)
    (rcvd : ℕ → ℤ) (seq_id : ℕ) : Type 0 where
  pub world : HoldsBytes w
  pub ukey : All IsByteText keys
  pub ukey_len : length keys ≤ map_entries
  pub total_ukey_size : size < 2 ^ 16
  pub request_id : id < 2 ^ 16
  pub outstanding_req : outstanding < 2 ^ 16
  pub pkt_counts : (i : ℕ) → counts i < 2 ^ 16
  pub keys_sent : (i : ℕ) → sent i < 2 ^ 16
  pub keys_rcvd : (i : ℕ) → IsInt16 (rcvd i)
  pub last_seq_id : seq_id < 2 ^ 16

abbrev pub IsTyped : {d : Dpdk} → State d → Type 0
IsTyped s =
    IsTypedAs s.world s.ukey s.total_ukey_size s.request_id s.outstanding_req s.pkt_counts
      s.keys_sent s.keys_rcvd s.last_seq_id

-- Only the memory changes.
pub IsTyped-world :
    {d : Dpdk} (s : State d) (w : World)
    → IsTyped s
    → HoldsBytes w
    → IsTyped (record s { world = w })
IsTyped-world s w is h = record {
  world = h;
  ukey = is.ukey;
  ukey_len = is.ukey_len;
  total_ukey_size = is.total_ukey_size;
  request_id = is.request_id;
  outstanding_req = is.outstanding_req;
  pkt_counts = is.pkt_counts;
  keys_sent = is.keys_sent;
  keys_rcvd = is.keys_rcvd;
  last_seq_id = is.last_seq_id;
}

-- Only the counters of packets change.
pub IsTyped-pkt_counts :
    {d : Dpdk} (s : State d) (f : ℕ → ℕ)
    → IsTyped s
    → ((i : ℕ) → f i < 2 ^ 16)
    → IsTyped (record s { pkt_counts = f })
IsTyped-pkt_counts s f is h = record {
  world = is.world;
  ukey = is.ukey;
  ukey_len = is.ukey_len;
  total_ukey_size = is.total_ukey_size;
  request_id = is.request_id;
  outstanding_req = is.outstanding_req;
  pkt_counts = h;
  keys_sent = is.keys_sent;
  keys_rcvd = is.keys_rcvd;
  last_seq_id = is.last_seq_id;
}

-- Only the counters of requests change.
pub IsTyped-counters :
    {d : Dpdk} (s : State d) (n : ℕ) (f : ℕ → ℤ)
    → IsTyped s
    → n < 2 ^ 16
    → ((i : ℕ) → IsInt16 (f i))
    → IsTyped (record s { outstanding_req = n; keys_rcvd = f })
IsTyped-counters s n f is small h = record {
  world = is.world;
  ukey = is.ukey;
  ukey_len = is.ukey_len;
  total_ukey_size = is.total_ukey_size;
  request_id = is.request_id;
  outstanding_req = small;
  pkt_counts = is.pkt_counts;
  keys_sent = is.keys_sent;
  keys_rcvd = h;
  last_seq_id = is.last_seq_id;
}

-- A write of bytes among bytes.
pub write8-AreBytes : (m : Mem) (o v : ℕ) → AreBytes m → AreBytes (write8 m o v)
write8-AreBytes m o v h a = ground (arith, h a)

pub write16-AreBytes : (m : Mem) (o v : ℕ) → AreBytes m → AreBytes (write16 m o v)
write16-AreBytes m o v h a = ground (arith, h a)

pub write16_raw-AreBytes : (m : Mem) (o v : ℕ) → AreBytes m → AreBytes (write16_raw m o v)
write16_raw-AreBytes m o v h a = ground (arith, h a)

pub write32-AreBytes : (m : Mem) (o v : ℕ) → AreBytes m → AreBytes (write32 m o v)
write32-AreBytes m o v h = write16-AreBytes _ (o + 2) v (write16-AreBytes m o (v / 65536) h)

pub memcpy-AreBytes :
    (m : Mem) (o : ℕ) (src : Mem) (n : ℕ) → AreBytes m → AreBytes src → AreBytes (memcpy m o src n)
memcpy-AreBytes m o src n h g a = ground (arith, h a, g (a - o))

pub set_mbuf-HoldsBytes :
    (w : World) (p : Ptr) (b : Mbuf)
    → HoldsBytes w
    → AreBytes b.contents
    → HoldsBytes (set_mbuf w p b)
set_mbuf-HoldsBytes w p b h g = record {
  buffers = λ q. elim (Bool-cases (q == p)) [
    | inl same ↦ rw (same, data_of) g
    | inr other ↦ rw (other, data_of) (h.buffers q)
  ];
  macs = h.macs;
}
