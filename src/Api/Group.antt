-- ===== src/Api/Group.antt =====
-- middlebox/src/api.c, insert_ukey_group: the group of distinct keys that the next request asks for.
pub mod Pigeons
pub mod Bounds
use kernel_bypass_group_proj.Base.{
  ℕ, suc, ◌+◌, ◌%◌, ◌^◌, Bytes, List, [], ◌∷◌, ◌++◌, Option, none, some, Bool, true, false, ◌||◌,
  ltb, bytes_eq, if◌then◌else◌, length,
}
use kernel_bypass_group_proj.Config.{map_entries}
use kernel_bypass_group_proj.Dpdk.{Dpdk}
use kernel_bypass_group_proj.Api.State.{State}

-- `for (...) if (strcmp(key, ukey[i]) == 0) return;`
unfoldable pub has_key : Bytes → List Bytes → Bool
has_key key [] = false
has_key key (k ∷ ks) = bytes_eq key k || has_key key ks

-- `none` is a write past the end of `ukey`.
unfoldable pub insert_ukey_group : {d : Dpdk} → Bytes → State d → Option (State d)
insert_ukey_group key s =
    if has_key key s.ukey
    then some s
    else if ltb (length s.ukey) map_entries
    then some (record s {
      ukey = s.ukey ++ key ∷ [];
      total_ukey_size = (s.total_ukey_size + length key) % 2 ^ 16;
    })
    else none
