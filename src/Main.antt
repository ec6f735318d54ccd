-- ===== src/Main.antt =====
-- main of middlebox/src/middlebox.c. What DPDK returns is the record Boot, with EthDev for the
-- ports; `none` is rte_exit, or a program that init_arp_table has stopped. The call of
-- rte_eal_cleanup behind lcore_main is never reached.
pub mod Boots
pub mod Serves
use kernel_bypass_group_proj.Base.{
  ℕ, ◌*◌, Bytes, List, [], ◌∷◌, Option, none, some, Bool, true, false, ◌||◌, not, if◌then◌else◌,
  length, codes,
}
use kernel_bypass_group_proj.Base.Int.{ℤ}
use kernel_bypass_group_proj.Base.Results.{◌>>=◌}
use kernel_bypass_group_proj.Config.{num_mbufs, num_small_mbufs}
use kernel_bypass_group_proj.Dpdk.{Dpdk, Ptr}
use kernel_bypass_group_proj.World.{World, Mbuf}
use kernel_bypass_group_proj.Arp.{init_arp_table}
use kernel_bypass_group_proj.Api.State.{State, init_hashmap}
use kernel_bypass_group_proj.Port.{EthDev, port_init, nonzero, negative}
use kernel_bypass_group_proj.Receive.{Env, lcore_main}

pub record Boot : Type 0 where
  pub eal_init : ℤ
  -- the ports that RTE_ETH_FOREACH_DEV visits, which rte_eth_dev_count_avail counts
  pub ports : List ℕ
  -- whether a pool of that name and number of buffers is created
  pub pool_create : Bytes → ℕ → Bool
  pub dev : EthDev
  -- the lines of the file of known hosts
  pub arp_file : Option (List Bytes)

-- `if (port_init(portid, mbuf_pool) != 0) rte_exit(...);` for each port
pub init_ports : EthDev → List ℕ → Bool
init_ports dev [] = true
init_ports dev (port ∷ ports) =
    let rest = init_ports dev ports in if nonzero (port_init dev port).0 then false else rest

-- main up to lcore_main
unfoldable pub boot : (d : Dpdk) → Boot → World → (ℕ → ℕ) → Option (State d)
unfolding init_ports
boot d b w clock_at =
    let nb_ports = length b.ports in
    if negative b.eal_init
    then none
    else if not (b.pool_create (codes "MBUF_POOL") (num_mbufs * nb_ports))
    then none
    else if not (b.pool_create (codes "SMALL_MBUF_POOL") (num_small_mbufs * nb_ports))
    then none
    else if not (init_ports b.dev b.ports)
    then none
    else init_arp_table d b.arp_file w.arp
      >>= (λ arp. some (init_hashmap d (record w { arp = arp }) clock_at))

-- with the bursts that the loop has taken so far
unfoldable pub main :
    {d : Dpdk} → Boot → Env → List (List (Ptr × Mbuf)) → World → (ℕ → ℕ) → Option (State d)
unfolding boot
main {d} b env bursts w clock_at = boot d b w clock_at >>= lcore_main env bursts
