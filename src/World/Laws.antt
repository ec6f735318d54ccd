-- ===== src/World/Laws.antt =====
-- Reading a buffer behind a write to one.
use kernel_bypass_group_proj.Base.{ℕ, ◌≡◌, ◌≢◌, ◌∙◌, ap, [], ◌∷◌, ◌++◌, arith, ==_refl}
use kernel_bypass_group_proj.Mem.{Mem}
use kernel_bypass_group_proj.Dpdk.{Ptr}
use kernel_bypass_group_proj.World.{World, Mbuf, transmit, set_mbuf, set_data, data_of}

pub heap-set_mbuf : (w : World) (p : Ptr) (b : Mbuf) → (set_mbuf w p b).heap p ≡ b
heap-set_mbuf w p b = rw (==_refl p)

pub heap-set_mbuf_ne :
    (w : World) (p q : Ptr) (b : Mbuf) → q ≢ p → (set_mbuf w p b).heap q ≡ w.heap q
heap-set_mbuf_ne w p q b ne = ground arith

pub data_of-set_data : (w : World) (p : Ptr) (m : Mem) → data_of (set_data w p m) p ≡ m
data_of-set_data w p m =
    ap (λ (b : Mbuf). b.contents) (heap-set_mbuf w p (record (w.heap p) { contents = m }))

-- `w'` is `w` after the buffer `p` has been filled with `f` and `len` bytes of it transmitted.
pub record Sent (w : World) (p : Ptr) (f : Mem) (len : ℕ) (w' : World) : Type 0 where
  pub trace : w'.trace ≡ w.trace ++ transmit p f len ∷ []
  pub filled : data_of w' p ≡ f
  pub next : (w'.heap p).next ≡ (w.heap p).next
  pub others : (q : Ptr) → q ≢ p → w'.heap q ≡ w.heap q
  pub pool : w'.pool ≡ w.pool
  pub arp : w'.arp ≡ w.arp

-- What was written to the buffer before does not show.
pub Sent-set_data :
    (w : World) (p : Ptr) (m f : Mem) (len : ℕ) (w' : World)
    → Sent (set_data w p m) p f len w'
    → Sent w p f len w'
Sent-set_data w p m f len w' s = record {
  trace = s.trace;
  filled = s.filled;
  next = s.next ∙ ap (λ (b : Mbuf). b.next) (heap-set_mbuf w p _);
  others = λ q ne. s.others q ne ∙ heap-set_mbuf_ne w p q _ ne;
  pool = s.pool;
  arp = s.arp;
}
