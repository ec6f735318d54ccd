-- ===== src/Main/Serves.antt =====
-- main with clients: from the start of the program to the requests for their keys.
use kernel_bypass_group_proj.Dpdk.{Dpdk}
use kernel_bypass_group_proj.World.{World}
use kernel_bypass_group_proj.Api.State.{State}
