-- ===== src/Tests/Types.antt =====
-- An example of the types of the variables after a run.
use kernel_bypass_group_proj.Base.{refl, arith, inl, inr, ◌==◌, Bool-cases, codes}
use kernel_bypass_group_proj.Typed.{IsByteDpdk, HoldsBytes, IsTyped}
use kernel_bypass_group_proj.Typed.Network.{image-AreBytes}
use kernel_bypass_group_proj.Typed.Loop.{lcore_main-IsTyped}
use kernel_bypass_group_proj.World.{data_of}
use kernel_bypass_group_proj.Tests.{
  toy, world, frame_small, reply_bytes, request_bytes, frame_bytes,
}
use kernel_bypass_group_proj.Tests.Runs.{env, bursts, after, ran}

toy-IsByteDpdk : IsByteDpdk toy
toy-IsByteDpdk = record {
  sge = λ p n a. ground arith;
  tuple = λ ip a. ground arith;
  ether = λ s h. image-AreBytes s h;
}

world-HoldsBytes : HoldsBytes world
world-HoldsBytes = record {
  buffers = λ p. elim (Bool-cases (p == 1)) [
    | inl same ↦ rw (same, data_of) (frame_small reply_bytes refl)
    | inr other ↦ rw (other, data_of) (frame_small request_bytes refl)
  ];
  macs = ((λ a. ground arith), ((λ a. ground arith), tt));
}

types_example : IsTyped after
types_example =
    lcore_main-IsTyped env world (λ i. 5) bursts after toy-IsByteDpdk world-HoldsBytes tt
      (
        (frame_small request_bytes refl, tt),
        ((frame_small (frame_bytes 3 0 0 1 13 (codes "VALUE foo 0 3")) refl, tt), tt),
      )
      ran
