-- ===== src/Dpdk.antt =====
-- What the program takes from DPDK: the hash table of rte_hash, and a few functions on values. They
-- are parameters; `Laws` is what their documentation says of them, as far as the program relies on it.
use kernel_bypass_group_proj.Base.{ℕ, ◌+◌, ◌*◌, ◌<◌, ◌≡◌, ◌≢◌, Bytes, Option, none, some}
use kernel_bypass_group_proj.Mem.{Mem}
use kernel_bypass_group_proj.Config.{map_entries}

-- The address of an mbuf; 0 is NULL.
abbrev pub Ptr : Type 0
Ptr = ℕ

abbrev pub null : Ptr
null = 0

pub record Dpdk : Type 1 where
  -- the state of a `struct rte_hash` created with MAP_ENTRIES entries
  pub Table : Type 0
  -- rte_hash_create
  pub empty_table : Table
  -- rte_hash_lookup_data: the position and the data, or a negative result
  pub lookup_data : Table → Bytes → Option (ℕ × Ptr)
  -- rte_hash_add_key_data, with its result ignored
  pub add_key_data : Table → Bytes → Ptr → Table
  -- rte_hash_del_key, with its result ignored
  pub del_key : Table → Bytes → Table
  -- rte_raw_cksum of the bytes from an offset on
  pub raw_cksum : Mem → ℕ → ℕ → ℕ
  -- RTE_IPV4
  pub rte_ipv4 : ℕ → ℕ → ℕ → ℕ → ℕ
  -- rte_ether_unformat_addr: the six bytes
  pub ether_unformat_addr : Bytes → Mem
  -- how far behind the UDP header the data room of an mbuf goes
  pub data_room : ℕ
  -- The bytes of a `struct net_sge` for a buffer and a length, and of a `struct ip_tuple` for a
  -- destination, as the compiler lays them out.
  pub net_sge_image : Ptr → ℕ → Mem
  pub ip_tuple_image : ℕ → Mem

pub record Laws (d : Dpdk) : Type 0 where
  pub lookup-empty : (k : Bytes) → d.lookup_data d.empty_table k ≡ none
  -- A new key is stored with its data, or else rte_hash_add_key_data has failed, as with -ENOSPC.
  pub lookup-add_new :
      (t : d.Table) (k : Bytes) (p : Ptr)
      → d.lookup_data t k ≡ none
      → d.lookup_data (d.add_key_data t k p) k ≢ none
      → (i : ℕ) × (i < map_entries) × (d.lookup_data (d.add_key_data t k p) k ≡ some (i, p))
  -- A key that is there keeps its position and gets the new data.
  pub lookup-add_old :
      (t : d.Table) (k : Bytes) (p q : Ptr) (i : ℕ)
      → d.lookup_data t k ≡ some (i, q)
      → d.lookup_data (d.add_key_data t k p) k ≡ some (i, p)
  pub lookup-add_ne :
      (t : d.Table) (k j : Bytes) (p : Ptr)
      → k ≢ j
      → d.lookup_data (d.add_key_data t k p) j ≡ d.lookup_data t j
  pub lookup-del_self : (t : d.Table) (k : Bytes) → d.lookup_data (d.del_key t k) k ≡ none
  pub lookup-del_ne :
      (t : d.Table) (k j : Bytes) → k ≢ j → d.lookup_data (d.del_key t k) j ≡ d.lookup_data t j
  -- Positions index arrays of `map_entries` elements.
  pub position_lt :
      (t : d.Table) (k : Bytes) (i : ℕ) (p : Ptr)
      → d.lookup_data t k ≡ some (i, p)
      → i < map_entries
  pub rte_ipv4_lem : (a b c e : ℕ) → d.rte_ipv4 a b c e ≡ ((a * 256 + b) * 256 + c) * 256 + e
