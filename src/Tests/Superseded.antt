-- ===== src/Tests/Superseded.antt =====
-- The application of the superseded middlebox, on concrete inputs.
use kernel_bypass_group_proj.Base.{
  ℕ, ◌<◌, ◌≡◌, ◌≢◌, refl, Bytes, List, [], ◌∷◌, some, arith, length, codes, leb, none, ◌==◌,
  if◌then◌else◌, bytes_eq, false,
}
use kernel_bypass_group_proj.Base.Results.{Ensures}
use kernel_bypass_group_proj.Config.{max_key_length}
use kernel_bypass_group_proj.Dpdk.{Ptr, null}
use kernel_bypass_group_proj.World.{World, Mbuf, Event, refcnt_update}
use kernel_bypass_group_proj.Api.Keys.{construct_keys_packet, append_keys}
use kernel_bypass_group_proj.Api.Group.{has_key}
use kernel_bypass_group_proj.Api.Signature.{signature}
use kernel_bypass_group_proj.Superseded.DynamicArray.{Array, Memory, insert_array}
use kernel_bypass_group_proj.Superseded.Processing.{
  Registry, normalize, normalize_key, insert_client, insert_client_info_to_map, get_from_map,
}
use kernel_bypass_group_proj.Superseded.Api.{
  ClientInfo, Limits, OldState, Junk, old_client_in, old_add_key, old_server_in,
}
use kernel_bypass_group_proj.Superseded.Api.Received.{Holds, value_text}
use kernel_bypass_group_proj.Superseded.Api.Replies.{IsReachable, Replied}
use kernel_bypass_group_proj.Superseded.Api.Fanout.{old_server_in-Replied}
use kernel_bypass_group_proj.Superseded.Api.Asks.{IsAsked, old_add_key-IsAsked}
use kernel_bypass_group_proj.Superseded.Api.Tidy.{IsTidy, old_client_in-IsTidy}
use kernel_bypass_group_proj.Superseded.Api.Trip.{asked-Replied}
use kernel_bypass_group_proj.Superseded.Processing.Lookup.{HasRoom, waiting}
use kernel_bypass_group_proj.Superseded.DynamicArray.Grow.{IsPlentiful}
use kernel_bypass_group_proj.Superseded.Api.{insert_ukey}
use kernel_bypass_group_proj.Base.{◌++◌, ◌+◌, ◌-◌, ◌%◌, ◌^◌, All}
use kernel_bypass_group_proj.Tests.{
  not_empty, toy, frame, frame_bytes, client_ip, hosts, avoids-All, foo-IsByteKey, local_small,
  target_small, server_known, client_known,
}
use kernel_bypass_group_proj.Tests.Boots.{plain_map, plain_map-laws}

-- the reply `VALUE foo 0 3` to the request 5, in every buffer
abbrev full : Mbuf
full = record {
  contents = frame (frame_bytes 3 5 0 1 13 (codes "VALUE foo 0 3\r\n"));
  next = null;
  pkt_len = 65;
  data_len = 65;
}

abbrev filled_world : World
filled_world = record { heap = λ p. full; pool = []; trace = []; arp = hosts }

abbrev client_of : ℕ → ClientInfo
client_of req_id = record { req_id = req_id; src_ip = client_ip; src_port = 8080 }

abbrev memory : Memory ClientInfo
memory = record { element_size = 8; has_room = λ bytes. leb bytes 800; garbage = client_of 0 }

abbrev limits : Limits
limits = record { group_size = 3; max_length = 1448 }

abbrev junk : Junk
junk = record {
  full_msg = λ i. 0;
  buffer = codes "junk";
  key = codes "junk";
  received = λ i. 0;
  result = 0;
}

abbrev table : Array ClientInfo
table = record { array = client_of 7 ∷ client_of 8 ∷ client_of 0 ∷ []; used = 2; size = 3 }

-- one table for all keys
abbrev clients : Registry plain_map.Map ClientInfo
clients = record {
  client_info_map = some (λ k. some 64);
  counter_map = some (λ k. none);
  normalized_key = codes "5-longer";
  tables = λ p. table;
  pool = [];
}

abbrev old_state : OldState plain_map.Map
old_state = record {
  world = filled_world;
  registry = clients;
  ukey = codes "foo" ∷ codes "bar" ∷ [];
  request_id = 5;
}

reply-Holds : Holds filled_world 1 5 (value_text (codes "foo") (codes "0 3"))
reply-Holds = record { small = omega arith; dgram_len = refl; payload = refl }

abbrev keyed : Registry plain_map.Map ClientInfo
keyed = record clients { normalized_key = normalize clients.normalized_key (codes "5-foo") }

foo_found :
    get_from_map plain_map memory max_key_length clients (codes "foo") 5 junk.result
    ≡ some (64, keyed)
unfolding get_from_map normalize_key signature
foo_found = refl

client-IsReachable : (req_id : ℕ) → IsReachable hosts (client_of req_id)
client-IsReachable req_id = record { small = omega arith; mac = λ i. 4; known = client_known }

old_server_in_example :
    (w : World) × (events : List Event) × (old_server_in toy plain_map memory limits junk 1 34
        old_state
      ≡ some (record old_state { world = w; registry = keyed }))
    × (w.trace ≡ refcnt_update 1 1 ∷ events)
    × Replied toy 1 hosts (codes "VALUE foo 0 3") (client_of 7 ∷ client_of 8 ∷ []) events
    × ((q : Ptr) → q ≢ 1 → w.heap q ≡ full)
old_server_in_example =
    old_server_in-Replied toy plain_map memory limits junk (omega arith) local_small 1 5
      (codes "foo") (codes "0 3") old_state 64 keyed reply-Holds foo-IsByteKey.0
      (avoids-All 0 (codes "VALUE foo 0 3") refl) (omega arith) (omega arith) foo_found
      (omega arith) (client-IsReachable 7, (client-IsReachable 8, tt))

-- with the client 9 behind the others
abbrev added : Registry plain_map.Map ClientInfo
added = record {
  client_info_map = clients.client_info_map;
  counter_map = clients.counter_map;
  normalized_key = normalize clients.normalized_key (codes "5-baz");
  tables = λ q.
      if q == 64
      then record { array = client_of 7 ∷ client_of 8 ∷ client_of 9 ∷ []; used = 3; size = 3 }
      else table;
  pool = [];
}

baz_added :
    insert_client_info_to_map plain_map memory max_key_length clients (codes "baz") 5 (client_of 9)
    ≡ some added
unfolding insert_client_info_to_map normalize_key signature insert_client insert_array
baz_added = refl

abbrev three_keys : List Bytes
three_keys = codes "foo" ∷ codes "bar" ∷ codes "baz" ∷ []

baz_new : has_key (codes "baz") old_state.ukey ≡ false
unfolding has_key bytes_eq
baz_new = refl

request_short : length (construct_keys_packet three_keys) < 100
unfolding construct_keys_packet append_keys
request_short = omega arith

old_add_key_example :
    (t : OldState plain_map.Map) × (old_add_key toy plain_map memory limits junk 1 34
        (client_of 9)
        (codes "baz")
        old_state
      ≡ some t)
    × IsAsked toy 1 (record old_state { registry = added; ukey = three_keys }) (λ i. 3) t
old_add_key_example =
    old_add_key-IsAsked toy plain_map memory limits junk (omega arith) local_small 1 (client_of 9)
      (codes "baz") old_state (λ i. 3) added baz_new refl baz_added (omega (arith, request_short))
      (omega (arith, request_short)) target_small server_known

old_state-IsTidy : IsTidy limits old_state
unfolding has_key bytes_eq
old_state-IsTidy = record {
  distinct = (refl, (refl, tt));
  room = omega arith;
  in_range = omega arith;
}

old_client_in_example :
    Ensures
      (IsTidy limits)
      (old_client_in toy plain_map memory limits junk 2 34 client_ip old_state)
old_client_in_example =
    old_client_in-IsTidy toy plain_map memory limits junk (omega arith) 2 34 client_ip old_state
      old_state-IsTidy

memory-IsPlentiful : IsPlentiful memory 100
memory-IsPlentiful = record {
  sized = omega arith;
  representable = omega arith;
  met = λ bytes h. ground arith;
}

-- The client 9 asks for `foo`, which the clients 7 and 8 wait for.
abbrev before : OldState plain_map.Map
before = record old_state { registry = record clients { pool = 72 ∷ [] }; ukey = codes "bar" ∷ [] }

abbrev joined : Registry plain_map.Map ClientInfo
joined = record {
  client_info_map = clients.client_info_map;
  counter_map = clients.counter_map;
  normalized_key = normalize clients.normalized_key (codes "5-foo");
  tables = added.tables;
  pool = 72 ∷ [];
}

abbrev asked : OldState plain_map.Map
asked = record before { registry = joined; ukey = codes "bar" ∷ codes "foo" ∷ [] }

-- when the request has been sent
abbrev later : OldState plain_map.Map
later = record asked { ukey = []; request_id = 6 }

foo_asked :
    old_add_key toy plain_map memory limits junk 2 34 (client_of 9) (codes "foo") before
    ≡ some asked
unfolding old_add_key insert_ukey has_key bytes_eq insert_client_info_to_map normalize_key signature
    insert_client insert_array
foo_asked = refl

tables_have_room : HasRoom plain_map memory max_key_length before.registry (λ k. some 64) 100
unfolding HasRoom
tables_have_room text p e = (
  record { fits = refl; bounded = omega arith; positive = omega arith; tight = omega arith },
  omega arith,
)

foo_short : length (signature 5 (codes "foo")) < max_key_length
unfolding signature
foo_short = ground arith

foo_waits :
    waiting plain_map memory max_key_length before.registry
      (λ k. some 64)
      (signature 5 (codes "foo"))
    ≡ client_of 7 ∷ client_of 8 ∷ []
unfolding waiting signature
foo_waits = refl

clients-IsReachable : All (IsReachable hosts) (
    waiting plain_map memory max_key_length before.registry
      (λ k. some 64)
      (signature 5 (codes "foo"))
    ++ client_of 9 ∷ [])
clients-IsReachable =
    rw foo_waits (client-IsReachable 7, (client-IsReachable 8, (client-IsReachable 9, tt)))

asked_example :
    let waiting_clients =
      waiting plain_map memory max_key_length before.registry
        (λ k. some 64)
        (signature 5 (codes "foo"))
      ++ client_of 9 ∷ [] in
    (v : OldState plain_map.Map) × (events : List Event) × (old_server_in toy plain_map memory
        limits junk 1 34 later
      ≡ some v)
    × (v.world.trace ≡ refcnt_update 1 ((length waiting_clients + 2 ^ 16 - 1) % 2 ^ 16) ∷ events)
    × Replied toy 1 hosts (codes "VALUE foo 0 3") waiting_clients events
    × ((b : Ptr) → b ≢ 1 → v.world.heap b ≡ full)
asked_example =
    asked-Replied toy plain_map memory limits junk (omega arith) local_small 2 1 34 (client_of 9)
      (codes "foo") (codes "0 3") before asked later (λ k. some 64) 100 plain_map-laws
      memory-IsPlentiful (omega arith) refl not_empty tables_have_room foo_short foo_asked refl
      reply-Holds foo-IsByteKey.0 (avoids-All 0 (codes "VALUE foo 0 3") refl) (omega arith)
      (omega arith) clients-IsReachable
