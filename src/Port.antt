-- ===== src/Port.antt =====
-- middlebox/src/dpdk_init.c. What the calls of DPDK return is the record EthDev; the calls that are
-- made are listed in order, with the arguments that the code computes.
pub mod Started
use kernel_bypass_group_proj.Base.{ℕ, zero, suc, Bool, true, false, List, [], ◌∷◌, if◌then◌else◌}
use kernel_bypass_group_proj.Base.Int.{ℤ, pos, negsuc}
use kernel_bypass_group_proj.Config.{rx_ring_size, tx_ring_size}

-- what the code reads of a `struct rte_eth_dev_info`
pub record DevInfo : Type 0 where
  -- tx_offload_capa & RTE_ETH_TX_OFFLOAD_MBUF_FAST_FREE
  pub fast_free : Bool

pub record EthDev : Type 0 where
  pub is_valid_port : ℕ → Bool
  pub info_get : ℕ → ℤ × DevInfo
  -- with the numbers of queues, and whether fast release is set in port_conf
  pub configure : ℕ → ℕ → ℕ → Bool → ℤ
  -- the two ring sizes before, and after
  pub adjust_nb_rx_tx_desc : ℕ → ℕ → ℕ → ℤ × ℕ × ℕ
  pub rx_queue_setup : ℕ → ℕ → ℕ → ℤ
  -- with whether fast release is set in txconf
  pub tx_queue_setup : ℕ → ℕ → ℕ → Bool → ℤ
  pub start : ℕ → ℤ
  pub macaddr_get : ℕ → ℤ

pub data Call : Type 0 where
  is_valid_port : ℕ → Call
  info_get : ℕ → Call
  configure : ℕ → ℕ → ℕ → Bool → Call
  adjust_nb_rx_tx_desc : ℕ → ℕ → ℕ → Call
  rx_queue_setup : ℕ → ℕ → ℕ → Call
  tx_queue_setup : ℕ → ℕ → ℕ → Bool → Call
  start : ℕ → Call
  macaddr_get : ℕ → Call

abbrev pub nonzero : ℤ → Bool
nonzero (pos zero) = false
nonzero (pos (suc n)) = true
nonzero (negsuc n) = true

abbrev pub negative : ℤ → Bool
negative (pos n) = false
negative (negsuc n) = true

-- A call that returned `retval`: `if (failed) return retval;`, and the rest otherwise.
unfoldable pub checked : Call → Bool → ℤ → ℤ × List Call → ℤ × List Call
checked call failed retval rest = if failed then (retval, call ∷ []) else (rest.0, call ∷ rest.1)

-- The first two numbers of each setup are the port and the number of the queue, of which there is
-- one in either direction.
unfoldable pub port_init : EthDev → ℕ → ℤ × List Call
unfolding checked
port_init e port =
    let rx_rings : ℕ = 1 in
    let tx_rings : ℕ = 1 in
    let (info, dev_info) = e.info_get port in
    let offloads = dev_info.fast_free in
    let (adjusted, nb_rxd, nb_txd) = e.adjust_nb_rx_tx_desc port rx_ring_size tx_ring_size in
    let configured = e.configure port rx_rings tx_rings offloads in
    let rx = e.rx_queue_setup port 0 nb_rxd in
    let tx = e.tx_queue_setup port 0 nb_txd offloads in
    if e.is_valid_port port
    then (let (retval, calls) = checked (info_get port) (nonzero info) info (
          checked (configure port rx_rings tx_rings offloads) (nonzero configured) configured (
            checked (adjust_nb_rx_tx_desc port rx_ring_size tx_ring_size) (nonzero adjusted)
              adjusted
              (checked (rx_queue_setup port 0 nb_rxd) (negative rx) rx (
                checked (tx_queue_setup port 0 nb_txd offloads) (negative tx) tx (
                  checked (start port) (negative (e.start port)) (e.start port) (
                    checked (macaddr_get port) (nonzero (e.macaddr_get port)) (e.macaddr_get port)
                      (pos 0, []))))))) in
        (retval, is_valid_port port ∷ calls))
    else (negsuc 0, is_valid_port port ∷ [])
