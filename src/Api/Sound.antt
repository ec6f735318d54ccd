-- ===== src/Api/Sound.antt =====
-- The invariant of middlebox/src/api.c: what holds of the static variables between two packets,
-- whatever the packets are.
pub mod Group
pub mod Client
pub mod Server
use kernel_bypass_group_proj.Base.{
  ℕ, ◌+◌, ◌≤◌, ◌<◌, ◌≡◌, refl, Bytes, List, Option, none, some, length, All, arith, subst,
}
use kernel_bypass_group_proj.Config.{map_entries, max_key_length, max_req_id}
use kernel_bypass_group_proj.Dpdk.{Dpdk}
use kernel_bypass_group_proj.Api.State.{State, ◌>>=◌}
use kernel_bypass_group_proj.Api.Keys.Size.{packed}
use kernel_bypass_group_proj.Api.Group.Pigeons.{Distinct}
use kernel_bypass_group_proj.Api.Client.Queue.{IsListed}

-- The group holds distinct keys that fit their rows, no more than it has rows, and its count of
-- bytes is exact; `limit` bounds what the keys take with their separators.
pub record IsTidy (ukey : List Bytes) (size limit : ℕ) : Type 0 where
  pub distinct : Distinct ukey
  pub short : All (λ k. length k < max_key_length) ukey
  pub few : length ukey ≤ map_entries
  pub size_exact : size + length ukey ≡ packed ukey
  pub room : packed ukey ≤ limit

-- What the handlers rely on: the group is below the limit of a packet, the next request id is in
-- range, and every key of the table stands in the queue.
abbrev pub IsSoundWith : {d : Dpdk} → ℕ → State d → Type 0
IsSoundWith {d} limit s =
    IsTidy s.ukey s.total_ukey_size limit
    × (s.request_id < max_req_id)
    × IsListed d s.client_pkts s.lru_queue s.lru_ptr

abbrev pub IsSound : {d : Dpdk} → State d → Type 0
IsSound s = IsSoundWith 1458 s

pub IsTidy-raise :
    {ukey : List Bytes} {size n : ℕ} (m : ℕ) → n ≤ m → IsTidy ukey size n → IsTidy ukey size m
IsTidy-raise m le t = record {
  distinct = t.distinct;
  short = t.short;
  few = t.few;
  size_exact = t.size_exact;
  room = omega (arith, t.room, le);
}

pub IsSound-raise : {d : Dpdk} (s : State d) → IsSound s → IsSoundWith 2901 s
IsSound-raise s is = (IsTidy-raise 2901 (omega arith) is.0, is.1, is.2)
