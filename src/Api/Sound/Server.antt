-- ===== src/Api/Sound/Server.antt =====
-- Replies of the server and the timeout keep the invariant: app_server_in and refresh_backlog.
use kernel_bypass_group_proj.Base.{
  ℕ, suc, ◌+◌, ◌-◌, ◌*◌, ◌/◌, sym, ◌∙◌, ap, inl, inr, Bytes, some, false, ◌==◌, leb, ltb,
  Bool-cases, Option-cases, if◌then◌else◌, length, bytes_eq, bytes_eq_sound,
}
use kernel_bypass_group_proj.Base.Int.{ℤ, pos, negsuc}
use kernel_bypass_group_proj.Base.Results.{Ensures, fails, gives, bind, follow}
use kernel_bypass_group_proj.Config.{max_req_id, timeout}
use kernel_bypass_group_proj.Mem.{slice}
use kernel_bypass_group_proj.Dpdk.{Dpdk, Laws, Ptr}
use kernel_bypass_group_proj.World.{free, log, data_of}
use kernel_bypass_group_proj.Api.State.{State, read_clock}
use kernel_bypass_group_proj.Api.Keys.{c_str, strip_key_value}
use kernel_bypass_group_proj.Api.Payload.{init_rcv_app_payload, extract_info}
use kernel_bypass_group_proj.Api.Signature.{print_signature}
use kernel_bypass_group_proj.Api.Client.Queue.{IsListed, bytes_ne}
use kernel_bypass_group_proj.Api.Server.{
  hold_key, reply_key, forward_chain, count_key, track_request, count_packet, steer, app_server_in,
  clocks_per_sec, start_clock, forget_requests, refresh_backlog,
}
use kernel_bypass_group_proj.Api.Sound.{IsSound, IsSound-raise}
use kernel_bypass_group_proj.Api.Sound.Group.{
  construct_pkt_and_send_to_server-IsSound, send_if_few-IsSound,
}

module _ {d : Dpdk} where
  hold_key-IsSound :
      (req_id datagram_exp : ℕ) (key : Bytes) (s : State d)
      → IsSound s
      → Ensures (λ (r : Bytes × State d). IsSound r.1) (hold_key req_id datagram_exp key s)
  unfolding hold_key
  hold_key-IsSound req_id datagram_exp key s is =
      bind (print_signature req_id (c_str key)) _ (λ sig _. elim (Bool-cases (ltb 1 datagram_exp)) [
        | inl several ↦ gives (rw several is)
        | inr one ↦ gives (rw one is)
      ])

  reply_key-IsSound :
      (array text payload : Bytes) (req_id datagram_exp : ℕ) (s : State d)
      → IsSound s
      → Ensures
          (λ (r : Bytes × State d). IsSound r.1)
          (reply_key array text payload req_id datagram_exp s)
  unfolding reply_key
  reply_key-IsSound array text payload req_id datagram_exp s is =
      bind (strip_key_value array text payload) _ (λ r _. elim (Bool-cases r.0) [
        | inl found ↦ rw found (hold_key-IsSound req_id datagram_exp r.1 s is)
        | inr missing ↦ rw missing (gives is)
      ])

  count_key-IsSound :
      (req_id n : ℕ) (s : State d) → IsSound s → Ensures IsSound (count_key req_id n s)
  unfolding count_key
  count_key-IsSound req_id n s is = elim (Bool-cases (ltb (s.keys_sent req_id / 2) (suc n))) [
    | inl over ↦ rw over (send_if_few-IsSound _ is)
    | inr under ↦ rw under (gives is)
  ]

  track_request-IsSound :
      (req_id seq_id : ℕ) (s : State d)
      → IsSound s
      → Ensures IsSound (track_request req_id seq_id s)
  unfolding track_request
  track_request-IsSound req_id seq_id s is = elim (Bool-cases (leb max_req_id req_id)) [
    | inl beyond ↦ rw beyond fails
    | inr ok ↦ rw (track_request, ok) (track_at (s.keys_rcvd req_id))
  ]
    where
      track_at :
          (n : ℤ)
          → Ensures IsSound (elim n [
            | negsuc _ ↦ some s
            | pos n ↦ if leb seq_id s.last_seq_id then count_key req_id n s else some s
          ])
      track_at (negsuc _) = gives is
      track_at (pos n) = elim (Bool-cases (leb seq_id s.last_seq_id)) [
        | inl first ↦ rw first (count_key-IsSound req_id n s is)
        | inr later ↦ rw later (gives is)
      ]

  start_clock-IsSound : (s : State d) → IsSound s → IsSound (start_clock s)
  unfolding start_clock
  start_clock-IsSound s is = elim (Bool-cases (s.last_send_clock == 0)) [
    | inl new ↦ rw new is
    | inr set ↦ rw set is
  ]

  -- The timeout keeps the invariant.
  pub refresh_backlog-IsSound : (s : State d) → IsSound s → Ensures IsSound (refresh_backlog s)
  unfolding refresh_backlog
  refresh_backlog-IsSound s is =
      let s1 = start_clock s in
      let is1 = start_clock-IsSound s is in
      elim (Bool-cases (length s1.ukey == 0)) [
        | inl empty ↦ rw empty (gives is1)
        | inr some_keys ↦
            let s2 = (read_clock s1).1 in
            elim (Bool-cases
              (leb (timeout * clocks_per_sec) (((read_clock s1).0 - s2.last_send_clock) * 1000))) [
                | inl late ↦
                    rw (some_keys, late)
                      (construct_pkt_and_send_to_server-IsSound false (forget_requests s2)
                        (IsSound-raise (forget_requests s2) is1))
                | inr early ↦ rw (some_keys, early) (gives is1)
              ]
      ]

module _ {d : Dpdk} (laws : Laws d) where
  del_key-IsListed :
      (t : d.Table) (k : Bytes) (queue : ℕ → Bytes) (ptr : ℕ)
      → IsListed d t queue ptr
      → IsListed d (d.del_key t k) queue ptr
  del_key-IsListed t k queue ptr v = record {
    listed = λ j there. elim (Bool-cases (bytes_eq k j)) [
      | inl same ↦ absurd (
          there (
            ap (d.lookup_data (d.del_key t k)) (sym (bytes_eq_sound k j same))
            ∙ laws.lookup-del_self t k))
      | inr differs ↦ v.listed j (λ e. there (laws.lookup-del_ne t k j (bytes_ne k j differs) ∙ e))
    ];
    ptr_in = v.ptr_in;
  }

  count_packet-IsSound :
      (position : ℕ) (head : Ptr) (datagram_exp : ℕ) (s : State d)
      → IsSound s
      → IsSound (count_packet position head datagram_exp s)
  unfolding count_packet
  count_packet-IsSound position head datagram_exp s is =
      elim (Bool-cases (ltb (s.pkt_counts position) datagram_exp)) [
        | inl more ↦ rw more is
        | inr last ↦
            rw last
              (is.0, is.1, del_key-IsListed s.client_pkts s.key_hold s.lru_queue s.lru_ptr is.2)
      ]

  steer-IsSound :
      (fuel : ℕ) (p : Ptr) (udph position : ℕ) (head : Ptr) (req_id seq_id datagram_exp : ℕ)
      (s : State d)
      → IsSound s
      → Ensures IsSound (steer fuel p udph position head req_id seq_id datagram_exp s)
  unfolding steer
  steer-IsSound fuel p udph position head req_id seq_id datagram_exp s is =
      bind (forward_chain d fuel p udph head s.world) _ (λ w _.
        follow _ (track_request-IsSound req_id seq_id (record s { world = log w (free p) }) is)
          (λ s' is'. gives (
            count_packet-IsSound position head datagram_exp (record s' { last_seq_id = seq_id })
              is')))

  -- A reply of the server, whatever it holds, keeps the invariant.
  pub app_server_in-IsSound :
      (fuel : ℕ) (array : Bytes) (p : Ptr) (udph : ℕ) (s : State d)
      → IsSound s
      → Ensures IsSound (app_server_in fuel array p udph s)
  unfolding app_server_in
  app_server_in-IsSound fuel array p udph s is =
      let m = data_of s.world p in
      elim (Option-cases (init_rcv_app_payload m udph)) [
        | inl long ↦ rw (app_server_in, long) (gives is)
        | inr (ap, ok) ↦
            rw (app_server_in, ok)
              (follow _
                (reply_key-IsSound array (c_str (slice m ap.payload d.data_room))
                  (slice m ap.payload ap.msg_len) (extract_info m ap.req_id)
                  (extract_info m (ap.hdr + 2)) s is)
                (λ r is'. elim (Option-cases (d.lookup_data r.1.client_pkts r.0)) [
                  | inl unknown ↦ rw unknown (gives is')
                  | inr (e, found) ↦ rw found (
                      steer-IsSound fuel p udph e.0 e.1 (extract_info m ap.req_id)
                        (extract_info m ap.hdr) (extract_info m (ap.hdr + 2)) r.1 is')
                ]))
      ]
