-- ===== src/Port/Started.antt =====
-- When port_init of middlebox/src/dpdk_init.c succeeds.
use kernel_bypass_group_proj.Base.{
  ℕ, zero, suc, ◌≡◌, ◌≢◌, refl, ap, ◌↔◌, Bool, true, false, arith, Bool-cases, inl, inr, List, [],
  ◌∷◌,
}
use kernel_bypass_group_proj.Base.Int.{ℤ, pos, negsuc}
use kernel_bypass_group_proj.Config.{rx_ring_size, tx_ring_size}
use kernel_bypass_group_proj.Port.{
  EthDev, Call, is_valid_port, info_get, configure, adjust_nb_rx_tx_desc, rx_queue_setup,
  tx_queue_setup, start, macaddr_get, nonzero, negative, checked, port_init,
}

-- what the adjustment makes of the ring sizes
abbrev pub adjusted : EthDev → ℕ → ℤ × ℕ × ℕ
adjusted e port = e.adjust_nb_rx_tx_desc port rx_ring_size tx_ring_size

abbrev pub offloads : EthDev → ℕ → Bool
offloads e port = (e.info_get port).1.fast_free

-- Every call that the code makes succeeds, each by its own test.
pub record IsStarted (e : EthDev) (port : ℕ) : Type 0 where
  pub valid : e.is_valid_port port ≡ true
  pub informed : (e.info_get port).0 ≡ pos 0
  pub configured : e.configure port 1 1 (offloads e port) ≡ pos 0
  pub sized : (adjusted e port).0 ≡ pos 0
  pub receives : negative (e.rx_queue_setup port 0 (adjusted e port).1) ≡ false
  pub transmits : negative (e.tx_queue_setup port 0 (adjusted e port).2 (offloads e port)) ≡ false
  pub started : negative (e.start port) ≡ false
  pub named : e.macaddr_get port ≡ pos 0

abbrev pub all_calls : EthDev → ℕ → List Call
all_calls e port =
    is_valid_port port
    ∷ info_get port
    ∷ configure port 1 1 (offloads e port)
    ∷ adjust_nb_rx_tx_desc port rx_ring_size tx_ring_size
    ∷ rx_queue_setup port 0 (adjusted e port).1
    ∷ tx_queue_setup port 0 (adjusted e port).2 (offloads e port)
    ∷ start port
    ∷ macaddr_get port
    ∷ []

pos-ne_negsuc : (m n : ℕ) → negsuc m ≢ pos n
pos-ne_negsuc m n e = cc

abbrev magnitude : ℤ → ℕ
magnitude (pos n) = n
magnitude (negsuc n) = n

pub nonzero_zero : (z : ℤ) → nonzero z ≡ false → z ≡ pos 0
nonzero_zero (pos zero) h = refl
nonzero_zero (pos (suc n)) h = cc
nonzero_zero (negsuc n) h = cc

nonzero_ne : (z : ℤ) → nonzero z ≡ true → z ≢ pos 0
nonzero_ne (pos zero) h = cc
nonzero_ne (pos (suc n)) h = λ e. omega (arith, ap magnitude e)
nonzero_ne (negsuc n) h = λ e. cc

negative_ne : (z : ℤ) → negative z ≡ true → z ≢ pos 0
negative_ne (pos n) h = cc
negative_ne (negsuc n) h = λ e. cc

-- A sequence that comes to 0 has passed its first test.
checked_zero :
    (call : Call) (failed : Bool) (retval : ℤ) (rest : ℤ × List Call)
    → (failed ≡ true → retval ≢ pos 0)
    → (checked call failed retval rest).0 ≡ pos 0
    → (failed ≡ false) × (rest.0 ≡ pos 0)
unfolding checked
checked_zero call true retval rest ne h = absurd (ne refl h)
checked_zero call false retval rest ne h = (refl, h)

pub started_calls :
    (e : EthDev) (port : ℕ) → IsStarted e port → port_init e port ≡ (pos 0, all_calls e port)
unfolding port_init
started_calls e port is =
    rw
      (
        port_init, checked, is.valid, is.informed, is.configured, is.sized, is.receives,
        is.transmits, is.started, is.named,
      )
      refl

pub zero-IsStarted : (e : EthDev) (port : ℕ) → (port_init e port).0 ≡ pos 0 → IsStarted e port
unfolding port_init
zero-IsStarted e port h = elim (Bool-cases (e.is_valid_port port)) [
  | inr f ↦ absurd (pos-ne_negsuc 0 0 (rw f at h))
  | inl valid ↦
      let (i, h1) = checked_zero _ _ _ _ (nonzero_ne _) (rw valid at h) in
      let (c, h2) = checked_zero _ _ _ _ (nonzero_ne _) h1 in
      let (a, h3) = checked_zero _ _ _ _ (nonzero_ne _) h2 in
      let (r, h4) = checked_zero _ _ _ _ (negative_ne _) h3 in
      let (t, h5) = checked_zero _ _ _ _ (negative_ne _) h4 in
      let (s, h6) = checked_zero _ _ _ _ (negative_ne _) h5 in
      let (m, _) = checked_zero _ _ _ _ (nonzero_ne _) h6 in
      record {
        valid = valid;
        informed = nonzero_zero _ i;
        configured = nonzero_zero _ c;
        sized = nonzero_zero _ a;
        receives = r;
        transmits = t;
        started = s;
        named = nonzero_zero _ m;
      }
]

-- port_init returns 0 exactly if the port is valid and every call of DPDK succeeds, by the test that
-- the code has for it; and exactly then it returns 0 having made all the calls, once and in order,
-- with the adjusted numbers of descriptors and with the offloads that the device offers.
pub port_init-IsStarted :
    (e : EthDev) (port : ℕ)
    → (((port_init e port).0 ≡ pos 0) ↔ IsStarted e port)
      × ((port_init e port ≡ (pos 0, all_calls e port)) ↔ IsStarted e port)
port_init-IsStarted e port = (
  (zero-IsStarted e port, λ is. ap (λ r. r.0) (started_calls e port is)),
  (λ h. zero-IsStarted e port (ap (λ r. r.0) h), started_calls e port),
)
