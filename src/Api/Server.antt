-- ===== src/Api/Server.antt =====
-- middlebox/src/api.c, app_server_in and refresh_backlog: a reply goes to the clients that wait for
-- it, and a backlog that has waited too long is sent. `none` is a write past the end of an array, a
-- NULL pointer that is read, a failed assert, or a chain longer than the fuel. `array` is what the
-- uninitialised `key` holds. PROGRAM_TIMEOUT is -1, so its branch is never taken.
pub mod Deliver
pub mod Steer
pub mod Later
pub mod Backlog
pub mod Track
use kernel_bypass_group_proj.Base.{
  ℕ, zero, suc, ◌+◌, ◌-◌, ◌*◌, ◌/◌, ◌%◌, ◌^◌, Bytes, List, [], ◌∷◌, Option, none, some, Bool, true,
  false, ◌&&◌, ◌==◌, leb, ltb, if◌then◌else◌, length,
}
use kernel_bypass_group_proj.Base.Int.{ℤ, pos, negsuc}
use kernel_bypass_group_proj.Config.{max_req_id, min_outstanding_req, timeout}
use kernel_bypass_group_proj.Mem.{Mem, read32, slice}
use kernel_bypass_group_proj.Dpdk.{Dpdk, Ptr, null}
use kernel_bypass_group_proj.World.{World, free, refcnt_update, log, data_of}
use kernel_bypass_group_proj.Api.State.{State, update, log_event, read_clock, ◌>>=◌}
use kernel_bypass_group_proj.Api.Keys.{c_str, strip_key_value}
use kernel_bypass_group_proj.Api.Payload.{
  AppPayload, init_rcv_app_payload, extract_info, get_iph_udph_from_buf, app_send,
}
use kernel_bypass_group_proj.Api.Signature.{print_signature}
use kernel_bypass_group_proj.Api.Flush.{construct_pkt_and_send_to_server}

-- one round of the loop over the chain: the reply goes to the client whose request is in `ptr`
unfoldable pub forward_to : Dpdk → Ptr → ℕ → Ptr → World → Option World
forward_to d pkt_buf udph ptr w =
    let m = data_of w ptr in
    let (iph, curr_udph) = get_iph_udph_from_buf m in
    elim (init_rcv_app_payload m curr_udph) [
      | none ↦ none
      | some ap ↦
          app_send d (log w (refcnt_update pkt_buf 1)) pkt_buf udph [] (extract_info m ap.req_id)
            (read32 m (iph + 12)) false
    ]

-- `while (ptr) { ...; ptr = ptr->next; }`, with fuel for the rounds
unfoldable pub forward_chain : Dpdk → ℕ → Ptr → ℕ → Ptr → World → Option World
unfolding forward_to
forward_chain d zero pkt_buf udph ptr w = if ptr == null then some w else none
forward_chain d (suc fuel) pkt_buf udph ptr w = elim (ptr == null) [
  | true ↦ some w
  | false ↦ elim (forward_to d pkt_buf udph ptr w) [
    | none ↦ none
    | some w' ↦ forward_chain d fuel pkt_buf udph (w'.heap ptr).next w'
  ]
]

abbrev pub clocks_per_sec : ℕ
clocks_per_sec = 1000000

module _ {d : Dpdk} where
  -- the signature, held as `key_hold` and, where the reply has more packets, as `last_key`
  unfoldable pub hold_key : ℕ → ℕ → Bytes → State d → Option (Bytes × State d)
  hold_key req_id datagram_exp key s = do
    sig ← print_signature req_id (c_str key)
    let s = record s { key_hold = sig }
    some (sig, if ltb 1 datagram_exp then record s { last_key = sig } else s)

  -- the text that is looked up
  unfoldable pub reply_key : Bytes → Bytes → Bytes → ℕ → ℕ → State d → Option (Bytes × State d)
  unfolding hold_key
  reply_key array text payload req_id datagram_exp s = do
    (found, key) ← strip_key_value array text payload
    if found then hold_key req_id datagram_exp key s else some (s.last_key, s)

  -- keys_rcvd[req_id] is `pos n`, n not negative: one more key has come. (The `int16_t` would wrap at
  -- 2^15 keys, and only for a request of more than 65533; the group has MAP_ENTRIES at most.)
  unfoldable pub count_key : ℕ → ℕ → State d → Option (State d)
  count_key req_id n s =
      if ltb (s.keys_sent req_id / 2) (suc n)
      then (let s = record s {
        keys_rcvd = update s.keys_rcvd req_id (negsuc 0);
        outstanding_req = (s.outstanding_req + 2 ^ 16 - 1) % 2 ^ 16;
      } in
          if ltb s.outstanding_req min_outstanding_req
          then construct_pkt_and_send_to_server false s
          else some s)
      else some (record s { keys_rcvd = update s.keys_rcvd req_id (pos (suc n)) })

  -- FULFILL_THRESHOLD is 0.5: the floor of half of a `uint16_t` is exact in a double. A reply is the
  -- first packet of a key if its sequence number is not above that of the packet before.
  unfoldable pub track_request : ℕ → ℕ → State d → Option (State d)
  unfolding count_key
  track_request req_id seq_id s =
      if leb max_req_id req_id then none else elim (s.keys_rcvd req_id) [
        | negsuc _ ↦ some s
        | pos n ↦ if leb seq_id s.last_seq_id then count_key req_id n s else some s
      ]

  -- `pkt_counts[position]++`, or the entry is given up
  unfoldable pub count_packet : ℕ → Ptr → ℕ → State d → State d
  count_packet position head datagram_exp s =
      if ltb (s.pkt_counts position) datagram_exp
      then record s { pkt_counts = update s.pkt_counts position (s.pkt_counts position + 1) }
      else log_event (record s { client_pkts = d.del_key s.client_pkts s.key_hold }) (free head)

  -- what follows a successful lookup
  unfoldable pub steer : ℕ → Ptr → ℕ → ℕ → Ptr → ℕ → ℕ → ℕ → State d → Option (State d)
  steer fuel pkt_buf udph position head req_id seq_id datagram_exp s = do
    w ← forward_chain d fuel pkt_buf udph head s.world
    s ← track_request req_id seq_id (record s { world = log w (free pkt_buf) })
    some (count_packet position head datagram_exp (record s { last_seq_id = seq_id }))

  unfoldable pub app_server_in : ℕ → Bytes → Ptr → ℕ → State d → Option (State d)
  app_server_in fuel array pkt_buf udph s =
      let m = data_of s.world pkt_buf in
      elim (init_rcv_app_payload m udph) [
        | none ↦ some (log_event s (free pkt_buf))
        | some ap ↦ do
          let req_id = extract_info m ap.req_id
          let datagram_exp = extract_info m (ap.hdr + 2)
          (key, s) ←
              reply_key array (c_str (slice m ap.payload d.data_room))
                (slice m ap.payload ap.msg_len) req_id datagram_exp s
          elim (d.lookup_data s.client_pkts key) [
            | none ↦ some (log_event s (free pkt_buf))
            | some (position, head) ↦
                steer fuel pkt_buf udph position head req_id (extract_info m ap.hdr) datagram_exp s
          ]
      ]

  -- `last_send_clock` is set by the first call.
  unfoldable pub start_clock : State d → State d
  start_clock s =
      if s.last_send_clock == 0
      then (let (now, s') = read_clock s in record s' { last_send_clock = now })
      else s

  -- all requests that are under way are given up
  unfoldable pub forget_requests : State d → State d
  forget_requests s = record s {
    outstanding_req = 0;
    keys_rcvd = λ i. if ltb i max_req_id then negsuc 0 else s.keys_rcvd i;
  }

  unfoldable pub refresh_backlog : State d → Option (State d)
  unfolding start_clock forget_requests
  refresh_backlog s =
      let s = start_clock s in
      if length s.ukey == 0
      then some s
      else (let (now, s) = read_clock s in
          if leb (timeout * clocks_per_sec) ((now - s.last_send_clock) * 1000)
          then construct_pkt_and_send_to_server false (forget_requests s)
          else some s)
