-- ===== src/Typed/Server.antt =====
-- A reply of the server and the timeout keep the types: app_server_in and refresh_backlog.
use kernel_bypass_group_proj.Base.{
  ℕ, zero, suc, ◌+◌, ◌-◌, ◌*◌, ◌/◌, ◌%◌, ◌^◌, ◌<◌, inl, inr, Bytes, [], some, false, ◌==◌, arith,
  ltb, ltb→lt, leb, Bool-cases, Option-cases, if◌then◌else◌, length,
}
use kernel_bypass_group_proj.Base.Int.{ℤ, pos, negsuc}
use kernel_bypass_group_proj.Base.Results.{Ensures, fails, gives, bind, follow, follow_elim, branch}
use kernel_bypass_group_proj.Config.{max_req_id, timeout, min_outstanding_req}
use kernel_bypass_group_proj.Mem.{Mem, slice, read16, read32}
use kernel_bypass_group_proj.Dpdk.{Dpdk, Ptr, null}
use kernel_bypass_group_proj.World.{World, data_of, log, free, refcnt_update}
use kernel_bypass_group_proj.Api.State.{State, read_clock}
use kernel_bypass_group_proj.Api.Keys.{c_str, strip_key_value}
use kernel_bypass_group_proj.Api.Signature.{print_signature}
use kernel_bypass_group_proj.Api.Payload.{init_rcv_app_payload, extract_info, get_iph_udph_from_buf}
use kernel_bypass_group_proj.Api.Server.{
  forward_to, forward_chain, hold_key, reply_key, count_key, track_request, count_packet, steer,
  app_server_in, start_clock, forget_requests, refresh_backlog, clocks_per_sec,
}
use kernel_bypass_group_proj.Typed.{
  AreBytes, IsByteDpdk, HoldsBytes, IsInt16, IsTyped, IsTyped-world, IsTyped-pkt_counts,
  IsTyped-counters,
}
use kernel_bypass_group_proj.Typed.Network.{log-HoldsBytes, app_send-HoldsBytes}
use kernel_bypass_group_proj.Typed.Client.{
  update-All, send_if-IsTyped, construct_pkt_and_send_to_server-IsTyped,
}

read16_small : (m : Mem) (o : ℕ) → AreBytes m → read16 m o < 2 ^ 16
read16_small m o h = omega (arith, h o, h (o + 1))

module _ {d : Dpdk} (ok : IsByteDpdk d) where
  forward_to-HoldsBytes :
      (p : Ptr) (udph : ℕ) (ptr : Ptr) (w : World)
      → HoldsBytes w
      → Ensures HoldsBytes (forward_to d p udph ptr w)
  unfolding forward_to
  forward_to-HoldsBytes p udph ptr w h =
      let m = data_of w ptr in
      let q = get_iph_udph_from_buf m in
      elim (Option-cases (init_rcv_app_payload m q.1)) [
        | inl long ↦ rw (forward_to, long) fails
        | inr (ap, fits) ↦
            rw (forward_to, fits)
              (app_send-HoldsBytes ok (log w (refcnt_update p 1)) p udph []
                (extract_info m ap.req_id) (read32 m (q.0 + 12)) false (log-HoldsBytes w _ h) tt)
      ]

  forward_chain-HoldsBytes :
      (fuel : ℕ) (p : Ptr) (udph : ℕ) (ptr : Ptr) (w : World)
      → HoldsBytes w
      → Ensures HoldsBytes (forward_chain d fuel p udph ptr w)
  unfolding forward_chain
  forward_chain-HoldsBytes zero p udph ptr w h = elim (Bool-cases (ptr == null)) [
    | inl last ↦ rw (forward_chain, last) (gives h)
    | inr more ↦ rw (forward_chain, more) fails
  ]
  forward_chain-HoldsBytes (suc fuel) p udph ptr w h = elim (Bool-cases (ptr == null)) [
    | inl last ↦ rw (forward_chain, last) (gives h)
    | inr more ↦
        rw (forward_chain, more)
          (follow_elim _ (forward_to-HoldsBytes p udph ptr w h)
            (λ w' h'. forward_chain-HoldsBytes fuel p udph (w'.heap ptr).next w' h'))
  ]

  reply_key-IsTyped :
      (array text payload : Bytes) (req_id datagram_exp : ℕ) (s : State d)
      → IsTyped s
      → Ensures
          (λ (r : Bytes × State d). IsTyped r.1)
          (reply_key array text payload req_id datagram_exp s)
  unfolding reply_key hold_key
  reply_key-IsTyped array text payload req_id datagram_exp s is =
      bind (strip_key_value array text payload) _ (λ r _. elim (Bool-cases r.0) [
        | inl found ↦ rw found (
            bind (print_signature req_id (c_str r.1)) _ (λ sig _.
              elim (Bool-cases (ltb 1 datagram_exp)) [
                | inl several ↦ gives (rw several is)
                | inr one ↦ gives (rw one is)
              ]))
        | inr missing ↦ rw missing (gives is)
      ])

  -- No more keys are counted than half of a `uint16_t`, which an `int16_t` holds.
  count_key-IsTyped :
      (req_id n : ℕ) (s : State d) → IsTyped s → Ensures IsTyped (count_key req_id n s)
  unfolding count_key
  count_key-IsTyped req_id n s is = elim (Bool-cases (ltb (s.keys_sent req_id / 2) (suc n))) [
    | inl over ↦ rw over (
        send_if-IsTyped ok (ltb ((s.outstanding_req + 2 ^ 16 - 1) % 2 ^ 16) min_outstanding_req)
          false _
          (IsTyped-counters s _ _ is (omega arith)
            (update-All IsInt16 s.keys_rcvd req_id (negsuc 0) is.keys_rcvd (ground arith))))
    | inr under ↦
        let small : suc n < 2 ^ 15 = ground (arith, under, is.keys_sent req_id) in
        rw under (
          gives (
            IsTyped-counters s _ _ is is.outstanding_req
              (update-All IsInt16 s.keys_rcvd req_id (pos (suc n)) is.keys_rcvd small)))
  ]

  track_request-IsTyped :
      (req_id seq_id : ℕ) (s : State d)
      → IsTyped s
      → Ensures IsTyped (track_request req_id seq_id s)
  unfolding track_request
  track_request-IsTyped req_id seq_id s is = elim (Bool-cases (leb max_req_id req_id)) [
    | inl beyond ↦ rw beyond fails
    | inr within ↦ rw (track_request, within) (track_at (s.keys_rcvd req_id))
  ]
    where
      track_at :
          (n : ℤ)
          → Ensures IsTyped (elim n [
            | negsuc _ ↦ some s
            | pos n ↦ if leb seq_id s.last_seq_id then count_key req_id n s else some s
          ])
      track_at (negsuc _) = gives is
      track_at (pos n) =
          branch (leb seq_id s.last_seq_id) (count_key-IsTyped req_id n s is) (gives is)

  count_packet-IsTyped :
      (position : ℕ) (head : Ptr) (datagram_exp : ℕ) (s : State d)
      → IsTyped s
      → datagram_exp < 2 ^ 16
      → IsTyped (count_packet position head datagram_exp s)
  unfolding count_packet
  count_packet-IsTyped position head datagram_exp s is small =
      elim (Bool-cases (ltb (s.pkt_counts position) datagram_exp)) [
        | inl more ↦ rw more (
            IsTyped-pkt_counts s _ is (
              update-All (λ n. n < 2 ^ 16) s.pkt_counts position (s.pkt_counts position + 1)
                is.pkt_counts (omega (arith, ltb→lt _ _ more, small))))
        | inr last ↦ rw last (IsTyped-world s _ is (log-HoldsBytes s.world _ is.world))
      ]

  steer-IsTyped :
      (fuel : ℕ) (p : Ptr) (udph position : ℕ) (head : Ptr) (req_id seq_id datagram_exp : ℕ)
      (s : State d)
      → IsTyped s
      → seq_id < 2 ^ 16
      → datagram_exp < 2 ^ 16
      → Ensures IsTyped (steer fuel p udph position head req_id seq_id datagram_exp s)
  unfolding steer
  steer-IsTyped fuel p udph position head req_id seq_id datagram_exp s is small few =
      follow _ (forward_chain-HoldsBytes fuel p udph head s.world is.world) (λ w h.
        follow _
          (track_request-IsTyped req_id seq_id (record s { world = log w (free p) })
            (IsTyped-world s _ is (log-HoldsBytes w _ h)))
          (λ s' is'. gives (
            count_packet-IsTyped position head datagram_exp (record s' { last_seq_id = seq_id })
              (record {
                world = is'.world;
                ukey = is'.ukey;
                ukey_len = is'.ukey_len;
                total_ukey_size = is'.total_ukey_size;
                request_id = is'.request_id;
                outstanding_req = is'.outstanding_req;
                pkt_counts = is'.pkt_counts;
                keys_sent = is'.keys_sent;
                keys_rcvd = is'.keys_rcvd;
                last_seq_id = small;
              })
              few)))

  -- A reply of the server, whatever bytes it holds.
  pub app_server_in-IsTyped :
      (fuel : ℕ) (array : Bytes) (p : Ptr) (udph : ℕ) (s : State d)
      → IsTyped s
      → Ensures IsTyped (app_server_in fuel array p udph s)
  unfolding app_server_in
  app_server_in-IsTyped fuel array p udph s is =
      let m = data_of s.world p in
      elim (Option-cases (init_rcv_app_payload m udph)) [
        | inl long ↦
            rw (app_server_in, long)
              (gives (IsTyped-world s _ is (log-HoldsBytes s.world _ is.world)))
        | inr (ap, fits) ↦
            rw (app_server_in, fits)
              (follow _
                (reply_key-IsTyped array (c_str (slice m ap.payload d.data_room))
                  (slice m ap.payload ap.msg_len) (extract_info m ap.req_id)
                  (extract_info m (ap.hdr + 2)) s is)
                (λ r is'. elim (Option-cases (d.lookup_data r.1.client_pkts r.0)) [
                  | inl unknown ↦
                      rw unknown
                        (gives (IsTyped-world r.1 _ is' (log-HoldsBytes r.1.world _ is'.world)))
                  | inr (e, found) ↦ rw found (
                      steer-IsTyped fuel p udph e.0 e.1 (extract_info m ap.req_id)
                        (extract_info m ap.hdr) (extract_info m (ap.hdr + 2)) r.1 is'
                        (read16_small m ap.hdr (is.world.buffers p))
                        (read16_small m (ap.hdr + 2) (is.world.buffers p)))
                ]))
      ]

  start_clock-IsTyped : (s : State d) → IsTyped s → IsTyped (start_clock s)
  unfolding start_clock
  start_clock-IsTyped s is = elim (Bool-cases (s.last_send_clock == 0)) [
    | inl new ↦ rw new is
    | inr set ↦ rw set is
  ]

  forget_requests-IsTyped : (s : State d) → IsTyped s → IsTyped (forget_requests s)
  unfolding forget_requests
  forget_requests-IsTyped s is = IsTyped-counters s 0 _ is (ground arith) (λ i.
      elim (Bool-cases (ltb i max_req_id)) [
        | inl within ↦ rw within (ground arith)
        | inr beyond ↦ rw beyond (is.keys_rcvd i)
      ])

  -- The timeout.
  pub refresh_backlog-IsTyped : (s : State d) → IsTyped s → Ensures IsTyped (refresh_backlog s)
  unfolding refresh_backlog
  refresh_backlog-IsTyped s is =
      let s1 = start_clock s in
      let is1 = start_clock-IsTyped s is in
      elim (Bool-cases (length s1.ukey == 0)) [
        | inl empty ↦ rw empty (gives is1)
        | inr some_keys ↦
            let s2 = (read_clock s1).1 in
            rw some_keys (
              branch
                (leb (timeout * clocks_per_sec) (((read_clock s1).0 - s2.last_send_clock) * 1000))
                (construct_pkt_and_send_to_server-IsTyped ok false (forget_requests s2)
                  (forget_requests-IsTyped s2 is1))
                (gives is1))
      ]
