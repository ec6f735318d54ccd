-- ===== src/Tests/Serves.antt =====
-- An example of the whole program with clients.
use kernel_bypass_group_proj.Base.{◌≡◌, ◌⊎◌, List, [], ◌∷◌, leb, codes}
use kernel_bypass_group_proj.World.{World}
use kernel_bypass_group_proj.Api.State.{State}
use kernel_bypass_group_proj.Api.Run.{Setting}
use kernel_bypass_group_proj.Receive.Run.{Request}
use kernel_bypass_group_proj.Tests.{world, hosts, frame, frame_bytes}

-- The keys `foo` and `bar` are asked for; copies lie from the address 8 on.
abbrev setting : Setting
setting = record {
  arp = hosts;
  mac = λ i. 3;
  Wanted = λ k. (k ≡ codes "foo") ⊎ (k ≡ codes "bar");
  pooled = λ p. leb 8 p;
}

-- `get foo bar` of the client 10.1.0.4
abbrev two_keys : Request
two_keys = record {
  buffer = 2;
  packet = record {
    contents = frame (frame_bytes 4 7 0 1 11 (codes "get foo bar\r\n"));
    next = 0;
    pkt_len = 63;
    data_len = 63;
  };
  keys = codes "foo" ∷ codes "bar" ∷ [];
}

abbrev stocked : World
stocked = record world { pool = 8 ∷ 9 ∷ 10 ∷ [] }

abbrev visits : List (List Request)
visits = [] ∷ (two_keys ∷ []) ∷ []
