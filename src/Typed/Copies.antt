-- ===== src/Typed/Copies.antt =====
-- The copies of a buffer, as one buffer or as a chain of segments: memory still holds bytes.
use kernel_bypass_group_proj.Base.{
  leb, zero, suc, ◌+◌, ℕ, inl, inr, List, [], ◌∷◌, Bool-cases, length,
}
use kernel_bypass_group_proj.Dpdk.{Ptr}
use kernel_bypass_group_proj.World.{World, Mbuf}
use kernel_bypass_group_proj.Api.State.{
  take_segments, copy_small, small_data_room, segments_for, copy_mbuf, take_from,
}
use kernel_bypass_group_proj.Typed.{AreBytes, HoldsBytes, set_mbuf-HoldsBytes}

pub copy_mbuf-HoldsBytes : (w : World) (p : Ptr) → HoldsBytes w → HoldsBytes (copy_mbuf w p).1
unfolding copy_mbuf take_from
copy_mbuf-HoldsBytes w p h = go w.pool
  where
    go : (pool : List Ptr) → HoldsBytes (take_from pool w p).1
    go [] = h
    go (q ∷ rest) =
        set_mbuf-HoldsBytes (record w { pool = rest }) q _
          (record { buffers = h.buffers; macs = h.macs }) (h.buffers p)

take_segments-HoldsBytes :
    (n offset : ℕ) (b : Mbuf) (pool : List Ptr) (w : World)
    → AreBytes b.contents
    → HoldsBytes w
    → HoldsBytes (take_segments n offset b pool w).1
unfolding take_segments
take_segments-HoldsBytes zero offset b pool w g h = record { buffers = h.buffers; macs = h.macs }
take_segments-HoldsBytes (suc n) offset b [] w g h = h
take_segments-HoldsBytes (suc n) offset b (q ∷ rest) w g h =
    set_mbuf-HoldsBytes (take_segments n (offset + small_data_room) b rest w).1 q _
      (take_segments-HoldsBytes n (offset + small_data_room) b rest w g h) (λ i. g (offset + i))

pub copy_small-HoldsBytes : (w : World) (p : Ptr) → HoldsBytes w → HoldsBytes (copy_small w p).1
unfolding copy_small
copy_small-HoldsBytes w p h =
    let b = w.heap p in
    elim (Bool-cases (leb b.pkt_len small_data_room)) [
      | inl one ↦ rw one (copy_mbuf-HoldsBytes w p h)
      | inr long ↦ elim (Bool-cases (leb (segments_for b.pkt_len) (length w.pool))) [
        | inl enough ↦
            rw (long, enough)
              (take_segments-HoldsBytes (segments_for b.pkt_len) 0 b w.pool w (h.buffers p) h)
        | inr few ↦ rw (long, few) h
      ]
    ]
