-- ===== src/Tests.antt =====
-- A concrete instance of the parameters, packets and states, for the examples of the modules below.
mod Network
mod Requests
pub mod Replies
mod Clients
mod Runs
mod Load
mod Boots
mod Programs
mod Superseded
mod Serves
mod Types
mod Refused
mod Segments
use kernel_bypass_group_proj.Base.{
  ℕ, ◌+◌, ◌*◌, ◌^◌, ◌<◌, ◌≡◌, ◌≢◌, refl, sym, ◌∙◌, ap, zero, suc, inl, inr, Bytes, List, [], ◌∷◌,
  ◌++◌, Option, none, some, Bool, true, false, ◌&&◌, arith, ltb, bytes_eq, bytes_eq_sound,
  bytes_eq_refl, bytes_eq_ne, Bool-cases, ◌==◌, if◌then◌else◌, get_or, codes, All, not,
}
use kernel_bypass_group_proj.Base.Int.{negsuc}
use kernel_bypass_group_proj.Mem.{Mem}
use kernel_bypass_group_proj.Dpdk.{Dpdk, Laws, Ptr, null}
use kernel_bypass_group_proj.Config.{local_ip_text, target_ip_text}
use kernel_bypass_group_proj.Utils.{ip_str_to_int}
use kernel_bypass_group_proj.Arp.{arp_lookup_mac}
use kernel_bypass_group_proj.World.{World, Mbuf, ArpEntry, ArpTable}
use kernel_bypass_group_proj.Api.State.{State}
use kernel_bypass_group_proj.Api.Keys.{space}
use kernel_bypass_group_proj.Api.Keys.RoundTrip.{IsWord, IsKey}
use kernel_bypass_group_proj.Api.Group.{has_key}
use kernel_bypass_group_proj.Api.Group.Bounds.{IsByteKey, IsGroup}
use kernel_bypass_group_proj.Api.Flush.Sends.{IsReady}

-- A table that keeps its only key at a time in position 0.
abbrev pub ToyTable : Type 0
ToyTable = Bytes → Option Ptr

abbrev pub at_zero : Option Ptr → Option (ℕ × Ptr)
at_zero none = none
at_zero (some p) = some (0, p)

abbrev pub toy : Dpdk
toy = record {
  Table = ToyTable;
  empty_table = λ k. none;
  lookup_data = λ t k. at_zero (t k);
  add_key_data = λ t k p j. if bytes_eq k j then some p else t j;
  del_key = λ t k j. if bytes_eq k j then none else t j;
  raw_cksum = λ m o n. m o + n;
  rte_ipv4 = λ a b c e. ((a * 256 + b) * 256 + c) * 256 + e;
  ether_unformat_addr = λ s i. get_or s i 0;
  data_room = 20;
  net_sge_image = λ p n i. 0;
  ip_tuple_image = λ ip i. 0;
}

at_zero-position : (o : Option Ptr) (i : ℕ) (p : Ptr) → at_zero o ≡ some (i, p) → i < 600
at_zero-position none i p e = cc
at_zero-position (some q) i p e = ground (arith, e)

toy_position : (o : Option Ptr) (i : ℕ) (p : Ptr) → at_zero o ≡ some (i, p) → 0 ≡ i
toy_position none i p e = cc
toy_position (some q) i p e = cc

some_ne_none : {x : ℕ × Ptr} → some x ≢ none
some_ne_none e = cc

-- The toy takes every key.
pub toy_place :
    (t : ToyTable) (k : Bytes) (p : Ptr) → toy.lookup_data (toy.add_key_data t k p) k ≢ none
toy_place t k p e =
    let stored : toy.lookup_data (toy.add_key_data t k p) k ≡ some (0, p) = rw (bytes_eq_refl k) in
    some_ne_none (sym stored ∙ e)

pub toy_laws : Laws toy
toy_laws = record {
  lookup-empty = λ k. refl;
  lookup-add_new = λ t k p absent stored. (0, ground arith, rw (bytes_eq_refl k));
  lookup-add_old =
      λ t k p q i e. rw (bytes_eq_refl k) (ap (λ (j : ℕ). some (j, p)) (toy_position (t k) i q e));
  lookup-add_ne = λ t k j p ne. rw (bytes_eq_ne k j ne);
  lookup-del_self = λ t k. rw (bytes_eq_refl k);
  lookup-del_ne = λ t k j ne. rw (bytes_eq_ne k j ne);
  position_lt = λ t k i p. at_zero-position (t k) i p;
  rte_ipv4_lem = λ a b c e. refl;
}

-- A frame of the middlebox's network: UDP to the port 8080 from the host `10.1.0.src` to this one,
-- with a memcached header and a message, of which the header of UDP says how long it is.
abbrev pub frame_bytes : ℕ → ℕ → ℕ → ℕ → ℕ → Bytes → Bytes
frame_bytes src id seq count len message =
    0
    ∷ 0
    ∷ 0
    ∷ 0
    ∷ 0
    ∷ 0
    ∷ 0
    ∷ 0
    ∷ 0
    ∷ 0
    ∷ 0
    ∷ 0
    ∷ 8
    ∷ 0
    ∷ 0x45
    ∷ 0
    ∷ 0
    ∷ 0
    ∷ 0
    ∷ 0
    ∷ 0
    ∷ 0
    ∷ 0
    ∷ 17
    ∷ 0
    ∷ 0
    ∷ 10
    ∷ 1
    ∷ 0
    ∷ src
    ∷ 10
    ∷ 1
    ∷ 0
    ∷ 2
    ∷ 0x1f
    ∷ 0x90
    ∷ 0x1f
    ∷ 0x90
    ∷ 0
    ∷ (len + 18)
    ∷ 0
    ∷ 0
    ∷ 0
    ∷ id
    ∷ 0
    ∷ seq
    ∷ 0
    ∷ count
    ∷ 0
    ∷ 0
    ∷ message

abbrev pub frame : Bytes → Mem
frame bytes i = get_or bytes i 0

abbrev all_small : Bytes → Bool
all_small [] = true
all_small (c ∷ cs) = ltb c 256 && all_small cs

pub frame_small : (bytes : Bytes) → all_small bytes ≡ true → (a : ℕ) → frame bytes a < 256
frame_small [] h a = ground arith
frame_small (c ∷ cs) h zero = ground arith
frame_small (c ∷ cs) h (suc a) = frame_small cs (ground arith) a

-- the server's reply `VALUE foo 0 3` to the request 5, from the buffer 1
abbrev pub reply_bytes : Bytes
reply_bytes = frame_bytes 3 5 0 1 13 (codes "VALUE foo 0 3")

-- the request `get foo` of the client 10.1.0.4, under its id 7, in the buffer 2
abbrev pub request_bytes : Bytes
request_bytes = frame_bytes 4 7 0 1 7 (codes "get foo\r\n")

abbrev pub buffers : Ptr → Mbuf
buffers p = record {
  contents = if p == 1 then frame reply_bytes else frame request_bytes;
  next = null;
  pkt_len = 65;
  data_len = 65;
}

-- 10.1.0.3 and 10.1.0.4
abbrev pub server_ip : ℕ
server_ip = 167837699

abbrev pub client_ip : ℕ
client_ip = 167837700

abbrev pub hosts : ArpTable
hosts = record {
  known_haddrs =
      record { addr = server_ip; mac = λ i. 3 } ∷ record { addr = client_ip; mac = λ i. 4 } ∷ [];
  arp_count = 2;
}

abbrev pub world : World
world = record { heap = buffers; pool = 8 ∷ 9 ∷ []; trace = []; arp = hosts }

-- The group holds two keys, and the next request has the id 5.
abbrev pub state : State toy
state = record {
  world = world;
  ukey = codes "foo" ∷ codes "bar" ∷ [];
  total_ukey_size = 6;
  request_id = 5;
  outstanding_req = 0;
  key_hold = codes "5-foo";
  last_key = [];
  pkt_counts = λ i. 1;
  client_pkts = λ k. if bytes_eq k (codes "5-foo") then some 2 else none;
  keys_sent = λ i. 0;
  keys_rcvd = λ i. negsuc 0;
  last_seq_id = 0;
  last_send_clock = 0;
  lru_queue = λ i. codes "5-foo";
  lru_ptr = 0;
  memcached_pkt = 2;
  clock_at = λ i. 0;
  clock_reads = 0;
}

-- no byte of the list is that one
abbrev avoids : ℕ → Bytes → Bool
avoids c [] = true
avoids c (b ∷ bs) = not (b == c) && avoids c bs

pub avoids-All : (c : ℕ) (bs : Bytes) → avoids c bs ≡ true → All (λ b. b ≢ c) bs
avoids-All c [] h = tt
avoids-All c (b ∷ bs) h = (ground (arith, h), avoids-All c bs (ground (arith, h)))

pub avoids-IsWord : (bs : Bytes) → (avoids space bs && avoids 0 bs) ≡ true → IsWord bs
avoids-IsWord [] h = tt
avoids-IsWord (b ∷ bs) h =
    ((ground (arith, h), ground (arith, h)), avoids-IsWord bs (ground (arith, h)))

pub not_empty {ℓ} : {A : Type ℓ} {x : A} {xs : List A} → (x ∷ xs) ≢ []
not_empty e = cc

small_All : (bs : Bytes) → all_small bs ≡ true → All (λ c. c < 256) bs
small_All [] h = tt
small_All (c ∷ cs) h = (ground (arith, h), small_All cs (ground (arith, h)))

pub three_IsKey :
    (a b c : ℕ)
    → (avoids space (a ∷ b ∷ c ∷ []) && avoids 0 (a ∷ b ∷ c ∷ [])) ≡ true
    → IsKey (a ∷ b ∷ c ∷ [])
three_IsKey a b c h = record {
  not_empty = not_empty;
  word = avoids-IsWord (a ∷ b ∷ c ∷ []) h;
  short = ground arith;
}

pub foo-IsByteKey : IsByteKey (codes "foo")
foo-IsByteKey = (three_IsKey b'f' b'o' b'o' refl, small_All (codes "foo") refl)

pub bar-IsByteKey : IsByteKey (codes "bar")
bar-IsByteKey = (three_IsKey b'b' b'a' b'r' refl, small_All (codes "bar") refl)

pub baz-IsByteKey : IsByteKey (codes "baz")
baz-IsByteKey = (three_IsKey b'b' b'a' b'z' refl, small_All (codes "baz") refl)

pub state-IsGroup : IsGroup state.ukey state.total_ukey_size
unfolding has_key bytes_eq
state-IsGroup = record {
  distinct = (refl, (refl, tt));
  keys = (foo-IsByteKey, (bar-IsByteKey, tt));
  size_exact = refl;
  room = omega arith;
}

pub local_small : ip_str_to_int toy local_ip_text < 2 ^ 32
unfolding ip_str_to_int
local_small = ground arith

pub target_small : ip_str_to_int toy target_ip_text < 2 ^ 32
unfolding ip_str_to_int
target_small = ground arith

pub server_known : arp_lookup_mac hosts (ip_str_to_int toy target_ip_text) ≡ some (λ i. 3)
unfolding ip_str_to_int arp_lookup_mac
server_known = refl

pub client_known : arp_lookup_mac hosts client_ip ≡ some (λ i. 4)
unfolding arp_lookup_mac
client_known = refl

pub state-IsReady : IsReady state (λ i. 3)
state-IsReady = record {
  known = server_known;
  target_small = target_small;
  local_small = local_small;
  template = λ e. omega (arith, e);
  short_header = refl;
  id_small = ground arith;
}
