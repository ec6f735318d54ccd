-- ===== src/Api/State.antt =====
-- The static variables of middlebox/src/api.c. `ukey` is the part of the array that `ukey_len`
-- counts; an array that the program only indexes is a function. `clock_at` gives what each call of
-- clock() returns, and `clock_reads` counts the calls.
pub use kernel_bypass_group_proj.Base.Results.{◌>>=◌}
use kernel_bypass_group_proj.Config.{small_mbufs_size}
use kernel_bypass_group_proj.Base.{
  ◌+◌, ◌-◌, ◌/◌, leb, ℕ, zero, suc, Bytes, List, [], ◌∷◌, length, ◌==◌, if◌then◌else◌,
}
use kernel_bypass_group_proj.Base.Int.{ℤ, pos}
use kernel_bypass_group_proj.Dpdk.{Dpdk, Ptr, null}
use kernel_bypass_group_proj.World.{World, Mbuf, Event, log, set_mbuf}

pub record State (d : Dpdk) : Type 0 where
  pub world : World
  pub ukey : List Bytes
  pub total_ukey_size : ℕ
  pub request_id : ℕ
  pub outstanding_req : ℕ
  pub key_hold : Bytes
  pub last_key : Bytes
  pub pkt_counts : ℕ → ℕ
  pub client_pkts : d.Table
  pub keys_sent : ℕ → ℕ
  pub keys_rcvd : ℕ → ℤ
  pub last_seq_id : ℕ
  pub last_send_clock : ℕ
  pub lru_queue : ℕ → Bytes
  pub lru_ptr : ℕ
  pub memcached_pkt : Ptr
  pub clock_at : ℕ → ℕ
  pub clock_reads : ℕ

module _ {d : Dpdk} where
  abbrev pub ukey_len : State d → ℕ
  ukey_len s = length s.ukey

  abbrev pub log_event : State d → Event → State d
  log_event s e = record s { world = log s.world e }

  -- `clock()`: the reading, and the state that has read it
  abbrev pub read_clock : State d → ℕ × State d
  read_clock s = (s.clock_at s.clock_reads, record s { clock_reads = suc s.clock_reads })

-- the static variables as the loader leaves them, and `rte_hash_create` in init_hashmap
unfoldable pub init_hashmap : (d : Dpdk) → World → (ℕ → ℕ) → State d
init_hashmap d w clock_at = record {
  world = w;
  ukey = [];
  total_ukey_size = 0;
  request_id = 0;
  outstanding_req = 0;
  key_hold = [];
  last_key = [];
  pkt_counts = λ i. 0;
  client_pkts = d.empty_table;
  keys_sent = λ i. 0;
  keys_rcvd = λ i. pos 0;
  last_seq_id = 0;
  last_send_clock = 0;
  lru_queue = λ i. [];
  lru_ptr = 0;
  memcached_pkt = null;
  clock_at = clock_at;
  clock_reads = 0;
}

unfoldable pub take_from : List Ptr → World → Ptr → Ptr × World
take_from [] w p = (null, w)
take_from (q ∷ rest) w p =
    (q, set_mbuf (record w { pool = rest }) q (record (w.heap p) { next = null }))

-- rte_pktmbuf_copy into one buffer with room for the whole packet: the address, or NULL where the pool has none left
unfoldable pub copy_mbuf : World → Ptr → Ptr × World
unfolding take_from
copy_mbuf w p = take_from w.pool w p

-- What is left of a small buffer of SMALL_MBUFS_SIZE for data: DPDK's RTE_PKTMBUF_HEADROOM, as it is
-- by default, takes 128 bytes.
abbrev pub small_data_room : ℕ
small_data_room = small_mbufs_size - 128

-- So many segments for the data from `offset` on: the first address, or NULL behind the last one.
-- (What a segment holds behind its `data_len` means nothing.)
unfoldable pub take_segments : ℕ → ℕ → Mbuf → List Ptr → World → Ptr × World
take_segments zero offset b pool w = (null, record w { pool = pool })
take_segments (suc n) offset b [] w = (null, w)
take_segments (suc n) offset b (q ∷ rest) w =
    let (behind, w') = take_segments n (offset + small_data_room) b rest w in
    (
      q,
      set_mbuf w' q (record {
        contents = λ i. b.contents (offset + i);
        next = behind;
        pkt_len = if offset == 0 then b.pkt_len else 0;
        data_len =
            if leb (b.pkt_len - offset) small_data_room
            then b.pkt_len - offset
            else small_data_room;
      }),
    )

-- how many buffers of small_mbuf_pool a packet of this length takes, where one is too few
abbrev pub segments_for : ℕ → ℕ
segments_for len = (len + small_data_room - 1) / small_data_room

-- rte_pktmbuf_copy into buffers of small_mbuf_pool: a packet that is longer than the data room of one
-- becomes a chain of them. A copy that finds too few in the pool takes none, and is NULL.
unfoldable pub copy_small : World → Ptr → Ptr × World
unfolding copy_mbuf take_segments
copy_small w p =
    let b = w.heap p in
    if leb b.pkt_len small_data_room
    then copy_mbuf w p
    else if leb (segments_for b.pkt_len) (length w.pool)
    then take_segments (segments_for b.pkt_len) 0 b w.pool w
    else (null, w)

-- the write `f[i] = v`
abbrev pub update {ℓ} : {A : Type ℓ} → (ℕ → A) → ℕ → A → ℕ → A
update f i v j = if j == i then v else f j
