-- ===== src/Tests/Boots.antt =====
-- Examples of starting the program, and of the superseded table of clients.
use kernel_bypass_group_proj.Base.{
  ℕ, ◌<◌, ◌≡◌, refl, if◌then◌else◌, Bytes, [], ◌∷◌, Option, none, some, true, arith, length, codes,
  All, bytes_eq, bytes_eq_refl,
}
use kernel_bypass_group_proj.Base.Int.{pos}
use kernel_bypass_group_proj.Arp.{init_arp_table, add_lines}
use kernel_bypass_group_proj.Api.Signature.{signature}
use kernel_bypass_group_proj.Api.Sound.{IsSound}
use kernel_bypass_group_proj.Port.Started.{IsStarted}
use kernel_bypass_group_proj.Main.{Boot, main}
use kernel_bypass_group_proj.Main.Boots.{boot_lem, main-IsSound}
use kernel_bypass_group_proj.Superseded.Processing.{HashMap, MapLaws, Registry}
use kernel_bypass_group_proj.Tests.{toy, toy_laws, world}
use kernel_bypass_group_proj.Tests.Load.{device}
use kernel_bypass_group_proj.Tests.Runs.{env, bursts, after, ran, short}

-- a machine with two ports, and an empty file of hosts
abbrev pub machine : Boot
machine = record {
  eal_init = pos 0;
  ports = 0 ∷ 1 ∷ [];
  pool_create = λ name n. true;
  dev = device;
  arp_file = some [];
}

pub device-IsStarted : (port : ℕ) → IsStarted device port
device-IsStarted port = record {
  valid = refl;
  informed = refl;
  configured = refl;
  sized = refl;
  receives = refl;
  transmits = refl;
  started = refl;
  named = refl;
}

pub no_hosts : init_arp_table toy machine.arp_file world.arp ≡ some world.arp
unfolding init_arp_table add_lines
no_hosts = refl

main_ran : main machine env bursts world (λ i. 5) ≡ some after
unfolding main
main_ran =
    rw
      (
        main,
        boot_lem {d = toy} machine world (λ i. 5) world.arp refl (λ name n. refl)
            (device-IsStarted 0, (device-IsStarted 1, tt)) no_hosts,
      )
      ran

main_example : All (IsStarted device) (0 ∷ 1 ∷ []) × IsSound after
main_example = main-IsSound toy_laws machine env bursts world (λ i. 5) after short main_ran

-- a map as a function
abbrev pub plain_map : HashMap
plain_map = record {
  Map = Bytes → Option ℕ;
  create = λ k. none;
  get = λ m k. m k;
  set = λ m k v j. if bytes_eq k j then some v else m j;
  remove = λ m k j. if bytes_eq k j then none else m j;
}

pub plain_map-laws : MapLaws plain_map
plain_map-laws = record { get-set = λ m k v. rw (bytes_eq_refl k) refl }

-- no map yet, and a key array that has held a longer key
abbrev registry : Registry plain_map.Map ℕ
registry = record {
  client_info_map = none;
  counter_map = none;
  normalized_key = codes "3-longer";
  tables = λ p. record { array = []; used = 0; size = 0 };
  pool = 64 ∷ [];
}

foo_short : length (signature 5 (codes "foo")) < 32
unfolding signature
foo_short = ground arith
