-- ===== src/Tests/Segments.antt =====
-- Tests of copies into small buffers: one buffer up to 128 bytes, else a chain of segments.
use kernel_bypass_group_proj.Base.{ℕ, ◌≡◌, refl, [], ◌∷◌, some, false, ◌==◌, if◌then◌else◌, codes}
use kernel_bypass_group_proj.Mem.{Mem}
use kernel_bypass_group_proj.Dpdk.{null}
use kernel_bypass_group_proj.World.{World}
use kernel_bypass_group_proj.Api.State.{
  State, init_hashmap, copy_small, copy_mbuf, take_from, take_segments,
}
use kernel_bypass_group_proj.Api.Client.{current_buf, register, enqueue, evict, chain_to}
use kernel_bypass_group_proj.Tests.{toy, world}

abbrev numbers : Mem
numbers = λ i. i

-- a packet of this length at the address 2, and three buffers for copies
abbrev holding : ℕ → World
holding n = record world {
  heap = λ p. record { contents = numbers; next = null; pkt_len = n; data_len = n };
  pool = 8 ∷ 9 ∷ 10 ∷ [];
}

abbrev copied : ℕ → World
copied n = (copy_small (holding n) 2).1

short_test :
    ((copy_small (holding 128) 2).0 ≡ 8)
    × (((copied 128).heap 8).next ≡ null)
    × ((copied 128).pool ≡ 9 ∷ 10 ∷ [])
unfolding copy_small copy_mbuf take_from
short_test = (refl, refl, refl)

long_test :
    ((copy_small (holding 200) 2).0 ≡ 8)
    × (((copied 200).heap 8).next ≡ 9)
    × (((copied 200).heap 8).data_len ≡ 128)
    × (((copied 200).heap 9).next ≡ null)
    × (((copied 200).heap 9).contents 0 ≡ 128)
    × (((copied 200).heap 9).data_len ≡ 72)
    × ((copied 200).pool ≡ 10 ∷ [])
unfolding copy_small take_segments
long_test = (refl, refl, refl, refl, refl, refl, refl)

exhausted_test : (copy_small (holding 400) 2).0 ≡ null
unfolding copy_small
exhausted_test = refl

abbrev second_key : State toy
second_key = record (init_hashmap toy (holding 200) (λ i. 5)) { key_hold = codes "0-bar" }

-- A later key that is new: the chain of its clients has the second segment, which is no packet.
new_key_test :
    (let (q, s) = current_buf false 2 second_key in
      register (toy.lookup_data s.client_pkts s.key_hold) q s
      ≡ some (record (enqueue s) {
        client_pkts = toy.add_key_data (enqueue s).client_pkts (codes "0-bar") 8;
      }))
unfolding current_buf copy_small take_segments register init_hashmap enqueue evict
new_key_test = refl

-- One that is there already: the second segment falls out of the chain.
old_key_test :
    (let (q, s) = current_buf false 2 second_key in
      register (some (0, 5)) q s
      ≡ some (record s {
        world = record s.world {
          heap = λ a. if a == 8 then record (s.world.heap 8) { next = 5 } else s.world.heap a;
        };
        client_pkts = toy.add_key_data s.client_pkts (codes "0-bar") 8;
      }))
unfolding current_buf copy_small take_segments register chain_to init_hashmap
old_key_test = refl
