-- ===== src/Tests/Refused.antt =====
-- An example of a hash table that refuses a key.
use kernel_bypass_group_proj.Base.{Option, some, none, bytes_eq, if◌then◌else◌}
use kernel_bypass_group_proj.Dpdk.{Dpdk, Ptr}
use kernel_bypass_group_proj.Api.State.{State, init_hashmap}
use kernel_bypass_group_proj.Tests.{toy, world}

abbrev again : Option Ptr → Ptr → Option Ptr
again none p = none
again (some q) p = some p

-- a table that is full from the start
abbrev stubborn : Dpdk
stubborn = record toy { add_key_data = λ t k p j. if bytes_eq k j then again (t k) p else t j }

abbrev fresh : State stubborn
fresh = init_hashmap stubborn world (λ i. 5)
