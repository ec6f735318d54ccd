-- ===== src/Tests/Clients.antt =====
-- Examples of the table of waiting clients.
use kernel_bypass_group_proj.Base.{
  zero, suc, All, length, [], ◌∷◌, true, false, ℕ, ◌<◌, ◌≡◌, ◌≢◌, refl, sym, Bytes, none, some,
  bytes_eq, bytes_eq_sound, Bool-cases, inl, inr, arith, codes,
}
use kernel_bypass_group_proj.Api.State.{State}
use kernel_bypass_group_proj.Api.Client.{register}
use kernel_bypass_group_proj.Api.Client.Queue.{make_room, HasPlace, IsListed, register_again}
use kernel_bypass_group_proj.Config.{max_key_length}
use kernel_bypass_group_proj.Api.Signature.{signature}
use kernel_bypass_group_proj.World.{World}
use kernel_bypass_group_proj.Api.Keys.RoundTrip.{IsWord}
use kernel_bypass_group_proj.Api.Group.{has_key}
use kernel_bypass_group_proj.Api.Group.Bounds.{IsByteKey, IsGroup}
use kernel_bypass_group_proj.Api.Flush.{kept_size, construct_pkt_and_send_to_server}
use kernel_bypass_group_proj.Api.Flush.Sends.{
  requested, Asked, IsReady, construct_pkt_and_send_to_server_overruns,
}
use kernel_bypass_group_proj.Api.Client.{add_key}
use kernel_bypass_group_proj.Api.Client.Add.{IsAdded, add_key_keeps, add_key_overflows}
use kernel_bypass_group_proj.Tests.{
  toy, toy_laws, toy_place, state, state-IsGroup, baz-IsByteKey, not_empty, local_small,
  target_small, server_known,
}

state-IsListed : IsListed toy state.client_pkts state.lru_queue state.lru_ptr
state-IsListed = record {
  listed = λ j there. elim (Bool-cases (bytes_eq j (codes "5-foo"))) [
    | inl same ↦ (0, ground arith, sym (bytes_eq_sound j (codes "5-foo") same))
    | inr differs ↦ absurd (there (rw differs refl))
  ];
  ptr_in = ground arith;
}

again_example :
    (s : State toy) × (register (some (0, 2)) 3 state ≡ some s)
    × (toy.lookup_data s.client_pkts (codes "5-foo") ≡ some (0, 3))
    × ((s.world.heap 3).next ≡ 2)
    × (s.world.trace ≡ state.world.trace)
    × ((j : Bytes)
        → j ≢ codes "5-foo"
        → toy.lookup_data s.client_pkts j ≡ toy.lookup_data state.client_pkts j)
    × IsListed toy s.client_pkts s.lru_queue s.lru_ptr
unfolding bytes_eq
again_example = register_again toy_laws state state-IsListed 3 2 0 refl (λ e. omega (arith, e))

-- nobody waits
abbrev idle : State toy
idle = record state { client_pkts = toy.empty_table }

idle-IsListed : IsListed toy idle.client_pkts idle.lru_queue idle.lru_ptr
idle-IsListed = record { listed = λ j there. absurd (there refl); ptr_in = ground arith }

baz_short : length (signature 5 (codes "baz")) < max_key_length
unfolding signature
baz_short = ground arith

baz_place : HasPlace idle (signature 5 (codes "baz")) 1
baz_place = toy_place (make_room idle) (signature 5 (codes "baz")) 1

keep_example :
    (s : State toy) × (add_key true 1 (codes "baz") idle ≡ some s)
    × IsAdded toy_laws idle
        (codes "baz")
        1
        state-IsGroup
        baz-IsByteKey
        idle-IsListed
        baz_short
        refl
        baz_place
        s
    × IsGroup s.ukey s.total_ukey_size
unfolding has_key bytes_eq
keep_example =
    add_key_keeps toy_laws idle (codes "baz") 1 state-IsGroup baz-IsByteKey idle-IsListed baz_short
      refl baz_place (omega arith)

abbrev long_text : ℕ → Bytes
long_text zero = []
long_text (suc n) = b'a' ∷ long_text n

length-long_text : (n : ℕ) → length (long_text n) ≡ n
length-long_text zero = refl
length-long_text (suc n) = omega (arith, length-long_text n)

long_text-IsWord : (n : ℕ) → IsWord (long_text n)
long_text-IsWord zero = tt
long_text-IsWord (suc n) = (((λ e. omega (arith, e)), (λ e. omega (arith, e))), long_text-IsWord n)

long_text-bytes : (n : ℕ) → All (λ c. c < 256) (long_text n)
long_text-bytes zero = tt
long_text-bytes (suc n) = (omega arith, long_text-bytes n)

long_text-IsByteKey : (n : ℕ) → n < 1442 → IsByteKey (long_text (suc n))
long_text-IsByteKey n h = (
  record {
    not_empty = not_empty;
    word = long_text-IsWord (suc n);
    short = omega (arith, length-long_text (suc n));
  },
  long_text-bytes (suc n),
)

-- The group is all but full.
abbrev crowded : State toy
crowded = record idle { ukey = long_text 1440 ∷ []; total_ukey_size = 1440 }

crowded-IsGroup : IsGroup crowded.ukey crowded.total_ukey_size
unfolding has_key
crowded-IsGroup = record {
  distinct = (refl, tt);
  keys = (long_text-IsByteKey 1439 (omega arith), tt);
  size_exact = omega (arith, length-long_text 1440);
  room = omega (arith, length-long_text 1440);
}

extra_short : length (signature 5 (long_text 20)) < max_key_length
unfolding signature
extra_short = ground arith

crowded-IsReady : IsReady crowded (λ i. 3)
crowded-IsReady = record {
  known = server_known;
  target_small = target_small;
  local_small = local_small;
  template = λ e. omega (arith, e);
  short_header = refl;
  id_small = ground arith;
}

extra-IsByteKey : IsByteKey (long_text 20)
extra-IsByteKey = long_text-IsByteKey 19 (omega arith)

extra_place : HasPlace crowded (signature 5 (long_text 20)) 1
extra_place = toy_place (make_room crowded) (signature 5 (long_text 20)) 1

-- The second key goes over the limit: the first is sent, and the second stays.
overflow_example :
    (s : State toy) × (w : World) × (add_key true 1 (long_text 20) crowded
      ≡ some (requested s w (long_text 1440 ∷ []) (long_text 20 ∷ [])))
    × IsAdded toy_laws crowded
        (long_text 20)
        1
        crowded-IsGroup
        extra-IsByteKey
        idle-IsListed
        extra_short
        refl
        extra_place
        s
    × Asked s (λ i. 3) (long_text 1440 ∷ []) w
    × IsGroup (long_text 20 ∷ []) (kept_size (long_text 20 ∷ []))
    × (toy.lookup_data s.client_pkts (
          signature
            (requested s w (long_text 1440 ∷ []) (long_text 20 ∷ [])).request_id
            (long_text 20))
        ≡ none)
unfolding has_key bytes_eq
overflow_example =
    add_key_overflows toy_laws crowded (long_text 20) 1 crowded-IsGroup extra-IsByteKey
      idle-IsListed extra_short refl extra_place
      (omega (arith, length-long_text 1440, length-long_text 20))
      (omega (arith, length-long_text 1440)) crowded-IsReady refl

-- A group that is as large as it may be between two keys.
abbrev brimful : State toy
brimful = record state { ukey = long_text 1440 ∷ long_text 16 ∷ []; total_ukey_size = 1456 }

overrun_example : construct_pkt_and_send_to_server false brimful ≡ none
overrun_example =
    construct_pkt_and_send_to_server_overruns brimful
      (omega (arith, length-long_text 1440, length-long_text 16))
