-- ===== src/Main/Boots.antt =====
-- What has gone well when the main loop runs.
use kernel_bypass_group_proj.Base.{
  ℕ, ◌*◌, ◌<◌, ◌≡◌, refl, Bytes, List, [], ◌∷◌, some, true, false, not, length, All, codes,
  Bool-cases, inl, inr,
}
use kernel_bypass_group_proj.Base.Results.{
  Ensures, fails, gives, bind, follow, Ensures-some, Ensures-map, branch,
}
use kernel_bypass_group_proj.Config.{max_key_length, num_mbufs, num_small_mbufs}
use kernel_bypass_group_proj.Dpdk.{Dpdk, Ptr, Laws}
use kernel_bypass_group_proj.World.{World, Mbuf, ArpTable}
use kernel_bypass_group_proj.Arp.{init_arp_table}
use kernel_bypass_group_proj.Api.Keys.{c_str}
use kernel_bypass_group_proj.Api.State.{State, init_hashmap}
use kernel_bypass_group_proj.Api.Sound.{IsSound}
use kernel_bypass_group_proj.Port.{EthDev, port_init, nonzero, negative}
use kernel_bypass_group_proj.Port.Started.{IsStarted, zero-IsStarted, started_calls, nonzero_zero}
use kernel_bypass_group_proj.Receive.{Env}
use kernel_bypass_group_proj.Receive.Sound.{lcore_main-IsSound, init_hashmap-IsSound}
use kernel_bypass_group_proj.Main.{Boot, init_ports, boot, main}

init_ports-IsStarted :
    (dev : EthDev) (ports : List ℕ) → init_ports dev ports ≡ true → All (IsStarted dev) ports
unfolding init_ports
init_ports-IsStarted dev [] h = tt
init_ports-IsStarted dev (p ∷ ports) h = elim (Bool-cases (nonzero (port_init dev p).0)) [
  | inl t ↦ absurd (go (rw t at h))
  | inr f ↦ (zero-IsStarted dev p (nonzero_zero _ f), init_ports-IsStarted dev ports (rw f at h))
]
  where
    go : false ≡ true → ⊥
    go e = cc

-- The ports are started, and the state is sound.
abbrev IsRunning : {d : Dpdk} → Boot → State d → Type 0
IsRunning b s = All (IsStarted b.dev) b.ports × IsSound s

boot-IsRunning :
    {d : Dpdk} (laws : Laws d) (b : Boot) (w : World) (clock_at : ℕ → ℕ)
    → Ensures (IsRunning b) (boot d b w clock_at)
unfolding boot
boot-IsRunning {d} laws b w clock_at =
    let eal = negative b.eal_init in
    let pool = not (b.pool_create (codes "MBUF_POOL") (num_mbufs * length b.ports)) in
    let small = not (b.pool_create (codes "SMALL_MBUF_POOL") (num_small_mbufs * length b.ports)) in
    let start : ArpTable → State d = λ arp. init_hashmap d (record w { arp = arp }) clock_at in
    elim (Bool-cases (init_ports b.dev b.ports)) [
      | inr f ↦ rw (boot, f) (branch eal fails (branch pool fails (branch small fails fails)))
      | inl t ↦
          rw (boot, t)
            (branch eal fails (
              branch pool fails (
                branch small fails (
                  bind (init_arp_table d b.arp_file w.arp) (λ arp. some (start arp))
                    (λ arp e. gives {a = start arp} (
                      init_ports-IsStarted b.dev b.ports t,
                      init_hashmap-IsSound d (record w { arp = arp }) clock_at laws,
                    ))))))
    ]

-- For a hash table with the laws of rte_hash, and an uninitialised key buffer that holds a text
-- shorter than its size: whatever DPDK returns, whatever the file of hosts has, and whatever bursts
-- come, if main has got into lcore_main and taken these bursts, then every port has been started,
-- every call for it having succeeded, and in the state that it has reached the group, the request id
-- and LRU_queue are as they should be.
pub main-IsSound :
    {d : Dpdk} (laws : Laws d) (b : Boot) (env : Env) (bursts : List (List (Ptr × Mbuf)))
    (w : World) (clock_at : ℕ → ℕ) (s : State d)
    → length (c_str env.buffer) < max_key_length
    → main b env bursts w clock_at ≡ some s
    → All (IsStarted b.dev) b.ports × IsSound s
unfolding main
main-IsSound {d} laws b env bursts w clock_at s short e = Ensures-some {P = IsRunning b} s (
    rw (← e) (
      follow _ (boot-IsRunning laws b w clock_at) (λ start running.
        Ensures-map (λ t sound. (running.0, sound))
          (lcore_main-IsSound laws env short bursts start running.1))))

IsStarted-init_ports :
    (dev : EthDev) (ports : List ℕ) → All (IsStarted dev) ports → init_ports dev ports ≡ true
unfolding init_ports
IsStarted-init_ports dev [] h = refl
IsStarted-init_ports dev (p ∷ ports) h =
    rw (init_ports, started_calls dev p h.0, IsStarted-init_ports dev ports h.1) refl

-- If the initialisation of EAL does not fail, every pool is created, every port starts, and
-- init_arp_table can read the file of hosts, then main gets to lcore_main, with the first values of
-- all variables and the hosts of the file.
pub boot_lem :
    {d : Dpdk} (b : Boot) (w : World) (clock_at : ℕ → ℕ) (arp : ArpTable)
    → negative b.eal_init ≡ false
    → ((name : Bytes) (n : ℕ) → b.pool_create name n ≡ true)
    → All (IsStarted b.dev) b.ports
    → init_arp_table d b.arp_file w.arp ≡ some arp
    → boot d b w clock_at ≡ some (init_hashmap d (record w { arp = arp }) clock_at)
unfolding boot
boot_lem b w clock_at arp eal pools ports file =
    rw
      (
        boot,
        eal,
        pools (codes "MBUF_POOL") _,
        pools (codes "SMALL_MBUF_POOL") _,
        IsStarted-init_ports b.dev b.ports ports,
        file,
      )
      refl
