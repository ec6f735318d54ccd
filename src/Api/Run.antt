-- ===== src/Api/Run.antt =====
-- What clients are owed over a whole run of middlebox/src/api.c: which requests go to the server, and
-- the state between two packets that keeps every step from failing.
pub mod Compose
pub mod Flush
pub mod Register
pub mod Keys
pub mod Client
use kernel_bypass_group_proj.Base.{
  subst, sym, arith, ◌≤◌, ℕ, ◌+◌, ◌%◌, ◌^◌, ◌≤◌, ◌<◌, ◌≡◌, ◌≢◌, ◌⊎◌, Bytes, List, [], ◌∷◌, ◌++◌,
  Option, some, none, Bool, true, false, ◌||◌, length, All,
}
use kernel_bypass_group_proj.Config.{target_ip_text, local_ip_text, max_req_id, map_entries}
use kernel_bypass_group_proj.Mem.{Mem}
use kernel_bypass_group_proj.Dpdk.{Dpdk, Ptr, null}
use kernel_bypass_group_proj.World.{World, ArpTable, Event, free, refcnt_update, transmit, data_of}
use kernel_bypass_group_proj.Utils.{ip_str_to_int}
use kernel_bypass_group_proj.Arp.{arp_lookup_mac}
use kernel_bypass_group_proj.Udp.Send.{IsDatagram}
use kernel_bypass_group_proj.Api.State.{State, small_data_room}
use kernel_bypass_group_proj.Api.Keys.{construct_keys_packet}
use kernel_bypass_group_proj.Api.Keys.Size.{packed}
use kernel_bypass_group_proj.Api.Payload.Send.{IsRequest}
use kernel_bypass_group_proj.Api.Signature.{signature}
use kernel_bypass_group_proj.Api.Group.{has_key}
use kernel_bypass_group_proj.Api.Group.Pigeons.{Distinct}
use kernel_bypass_group_proj.Api.Group.Bounds.{IsByteKey, IsGroup}
use kernel_bypass_group_proj.Api.Client.Queue.{IsListed}

-- What a run stands on: the ARP table, the server's hardware address, the keys that clients ask for,
-- and which buffers rte_pktmbuf_copy gives out, as opposed to those that packets arrive in.
pub record Setting : Type 1 where
  pub arp : ArpTable
  pub mac : Mem
  pub Wanted : Bytes → Type 0
  pub pooled : Ptr → Bool

-- the texts that wanted keys are registered under
abbrev pub IsSigned : Setting → Bytes → Type 0
IsSigned t k = (id : ℕ) × (key : Bytes) × (id < max_req_id) × t.Wanted key × (k ≡ signature id key)

-- the tables that come of adding and deleting such texts
pub data IsOfRun (d : Dpdk) (t : Setting) : d.Table → Type 0 where
  start : IsOfRun d t d.empty_table
  added :
      {table : d.Table} (k : Bytes) (p : Ptr)
      → IsOfRun d t table
      → IsSigned t k
      → IsOfRun d t (d.add_key_data table k p)
  deleted : {table : d.Table} (k : Bytes) → IsOfRun d t table → IsOfRun d t (d.del_key table k)

-- The server can be reached, copies are not NULL, every wanted key fits a row with its signature,
-- and no group of distinct wanted keys takes exactly the 1458 bytes that pass the test for a full
-- packet but overrun the request. In the tables of the run, where fewer than MAP_ENTRIES keys are,
-- rte_hash_add_key_data does not fail for want of a place, a result that the code does not test.
pub record IsFit (d : Dpdk) (t : Setting) : Type 0 where
  pub known : arp_lookup_mac t.arp (ip_str_to_int d target_ip_text) ≡ some t.mac
  pub target_small : ip_str_to_int d target_ip_text < 2 ^ 32
  pub local_small : ip_str_to_int d local_ip_text < 2 ^ 32
  pub null_apart : t.pooled null ≡ false
  pub key : (k : Bytes) → t.Wanted k → IsByteKey k × (length k ≤ 1436)
  pub no_overrun : (ks : List Bytes) → All t.Wanted ks → Distinct ks → packed ks ≢ 1458
  pub place :
      (table : d.Table) (k : Bytes) (p : Ptr) (slot : ℕ → Bytes) (n : ℕ)
      → IsOfRun d t table
      → IsSigned t k
      → d.lookup_data table k ≡ none
      → ((j : Bytes) → d.lookup_data table j ≢ none → (i : ℕ) × (i < n) × (slot i ≡ j))
      → n < map_entries
      → d.lookup_data (d.add_key_data table k p) k ≢ none

-- The second trace is the first one followed by requests to the server for these keys, in order, and
-- by releases and changes of reference counts; nothing else is transmitted.
pub data Asks (d : Dpdk) (mac : Mem) (from : List Event) : List Event → List Bytes → Type 0 where
  still : Asks d mac from from []
  release :
      {t u : List Event} {ks : List Bytes} (p : Ptr)
      → Asks d mac from t ks
      → u ≡ t ++ free p ∷ []
      → Asks d mac from u ks
  refer :
      {t u : List Event} {ks : List Bytes} (p : Ptr) (n : ℕ)
      → Asks d mac from t ks
      → u ≡ t ++ refcnt_update p n ∷ []
      → Asks d mac from u ks
  ask :
      {t u : List Event} {ks js : List Bytes} (p : Ptr) (f : Mem) (id : ℕ) (new : List Bytes)
      → Asks d mac from t ks
      → u ≡ t ++ transmit p f (packed new + 56) ∷ []
      → js ≡ ks ++ new
      → IsDatagram d f f mac (ip_str_to_int d target_ip_text) (packed new + 14)
      → IsRequest f id (construct_keys_packet new)
      → Asks d mac from u js

-- From one world to a later one: these keys have been asked for, the ARP table and the data of the
-- buffers that packets arrive in and their lengths are the same, and IP headers of 20 bytes stay so.
pub record Moves (d : Dpdk) (t : Setting) (w w' : World) (sent : List Bytes) : Type 0 where
  pub asks : Asks d t.mac w.trace w'.trace sent
  pub arp : w'.arp ≡ w.arp
  pub arrived : (q : Ptr) → t.pooled q ≡ false → data_of w' q ≡ data_of w q
  pub lengths : (q : Ptr) → t.pooled q ≡ false → (w'.heap q).pkt_len ≡ (w.heap q).pkt_len
  pub short : (q : Ptr) → data_of w q 14 % 16 ≡ 5 → data_of w' q 14 % 16 ≡ 5

-- A packet of a client with so many keys lies in its buffer: it has an IP header of 20 bytes, and
-- fits a small buffer where copies of it are made.
pub record IsHeld (t : Setting) (w : World) (p : Ptr) (keys : ℕ) : Type 0 where
  pub there : p ≢ null
  pub apart : t.pooled p ≡ false
  pub short_header : data_of w p 14 % 16 ≡ 5
  pub fits : 2 ≤ keys → (w.heap p).pkt_len ≤ small_data_room

pub IsHeld-fewer :
    {t : Setting} {w : World} {p : Ptr} {m n : ℕ} → m ≤ n → IsHeld t w p n → IsHeld t w p m
IsHeld-fewer le h = record {
  there = h.there;
  apart = h.apart;
  short_header = h.short_header;
  fits = λ two. h.fits (omega (arith, le, two));
}

pub IsHeld-Moves :
    {d : Dpdk} {t : Setting} {w w' : World} {p : Ptr} {n : ℕ} {sent : List Bytes}
    → Moves d t w w' sent
    → IsHeld t w p n
    → IsHeld t w' p n
IsHeld-Moves {p = p} m h = record {
  there = h.there;
  apart = h.apart;
  short_header = m.short p h.short_header;
  fits = λ two. subst (λ n. n ≤ small_data_room) (sym (m.lengths p h.apart)) (h.fits two);
}

-- Of the keys, what has been asked for or stands in the group now is exactly what stood in the group
-- before and what is new.
abbrev pub SameKeys : (sent now before extra : List Bytes) → Type 0
SameKeys sent now before extra =
    (j : Bytes) → has_key j (sent ++ now) ≡ (has_key j before || has_key j extra)

-- A run in which clients ask for `extra`: no key of theirs is lost and none is made up.
pub record Serves {d : Dpdk} (t : Setting) (extra : List Bytes) (s s' : State d) : Type 0 where
  pub sent : List Bytes
  pub asks : Asks d t.mac s.world.trace s'.world.trace sent
  pub same_keys : SameKeys sent s'.ukey s.ukey extra

-- The same for a part of a run in which no packet arrives.
pub record Steps {d : Dpdk} (t : Setting) (extra : List Bytes) (s s' : State d) : Type 0 where
  pub sent : List Bytes
  pub moves : Moves d t s.world s'.world sent
  pub same_keys : SameKeys sent s'.ukey s.ukey extra

-- The table stands in its queue and is one of the run, the request id is in range, the ARP table is that of the run, and
-- there are buffers left for so many copies.
pub record IsSteady {d : Dpdk} (t : Setting) (copies : ℕ) (s : State d) : Type 0 where
  pub listed : IsListed d s.client_pkts s.lru_queue s.lru_ptr
  pub of_run : IsOfRun d t s.client_pkts
  pub id_small : s.request_id < max_req_id
  pub arp : s.world.arp ≡ t.arp
  pub pool : All (λ q. t.pooled q ≡ true) s.world.pool
  pub enough : copies ≤ length s.world.pool

-- Between two packets: the group is valid, too, and of wanted keys.
pub record IsOrderly {d : Dpdk} (t : Setting) (copies : ℕ) (s : State d) : Type 0 where
  pub steady : IsSteady t copies s
  pub group : IsGroup s.ukey s.total_ukey_size
  pub wanted : All t.Wanted s.ukey

-- The packet that requests are made of is there.
pub record HasTemplate {d : Dpdk} (t : Setting) (s : State d) : Type 0 where
  pub pooled : t.pooled s.memcached_pkt ≡ true
  pub short_header : data_of s.world s.memcached_pkt 14 % 16 ≡ 5

-- Before the first packet of a client there is no template, and nothing to send.
pub record IsIdle {d : Dpdk} (s : State d) : Type 0 where
  pub no_template : s.memcached_pkt ≡ null
  pub no_keys : s.ukey ≡ []

abbrev pub IsBusy : {d : Dpdk} → Setting → ℕ → State d → Type 0
IsBusy t copies s = IsOrderly t copies s × HasTemplate t s

abbrev pub IsLive : {d : Dpdk} → Setting → ℕ → State d → Type 0
IsLive t copies s = IsOrderly t copies s × (HasTemplate t s ⊎ IsIdle s)

-- The step does not fail, and does what clients are owed.
abbrev pub Does :
    {d : Dpdk} → Setting → (State d → Type 0) → List Bytes → State d → Option (State d) → Type 0
Does {d} t P extra s o = (s' : State d) × (o ≡ some s') × P s' × Steps t extra s s'
