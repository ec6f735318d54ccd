-- ===== src/Api/Server/Track.antt =====
-- track_request, over the replies to one request: when the request counts as fulfilled.
use kernel_bypass_group_proj.Base.{
  ℕ, zero, suc, ◌+◌, ◌-◌, ◌/◌, ◌%◌, ◌^◌, ◌≤◌, ◌<◌, ◌≡◌, refl, ◌∙◌, ap, some, none, Option, true,
  false, arith, leb, ltb, ==_refl, if◌then◌else◌,
}
use mathlib.Core.Path.{fun_ext}
use kernel_bypass_group_proj.Base.Int.{ℤ, pos, negsuc}
use kernel_bypass_group_proj.Config.{max_req_id, min_outstanding_req}
use kernel_bypass_group_proj.Dpdk.{Dpdk}
use kernel_bypass_group_proj.Api.State.{State, update, ◌>>=◌}
use kernel_bypass_group_proj.Api.Flush.{construct_pkt_and_send_to_server}
use kernel_bypass_group_proj.Api.Server.{count_key, track_request}

update_again : (f : ℕ → ℤ) (r : ℕ) (a b : ℤ) → update (update f r a) r b ≡ update f r b
update_again f r a b = fun_ext (λ j. ground arith)

module _ {d : Dpdk} where
  -- `k` more replies of one datagram each, to the request `r`
  abbrev pub track_replies : ℕ → ℕ → State d → Option (State d)
  track_replies zero r s = some s
  track_replies (suc k) r s = track_request r 0 s >>= track_replies k r

  -- The state with another count of keys for the request.
  abbrev pub received_keys : State d → ℕ → ℕ → State d
  received_keys s r n = record s { keys_rcvd = update s.keys_rcvd r (pos n) }

  abbrev pub fulfilled : State d → ℕ → State d
  fulfilled s r = record s {
    keys_rcvd = update s.keys_rcvd r (negsuc 0);
    outstanding_req = (s.outstanding_req + 2 ^ 16 - 1) % 2 ^ 16;
  }

  fulfilled_again : (s : State d) (r n : ℕ) → fulfilled (received_keys s r n) r ≡ fulfilled s r
  fulfilled_again s r n =
      ap
        (λ (f : ℕ → ℤ). record s {
          keys_rcvd = f;
          outstanding_req = (s.outstanding_req + 2 ^ 16 - 1) % 2 ^ 16;
        })
        (update_again s.keys_rcvd r (pos n) (negsuc 0))

  -- what follows where the request has just been fulfilled
  abbrev pub send_if_room : State d → Option (State d)
  send_if_room s =
      if ltb s.outstanding_req min_outstanding_req
      then construct_pkt_and_send_to_server false s
      else some s

  bind_some : (o : Option (State d)) → (o >>= λ s. some s) ≡ o
  bind_some none = refl
  bind_some (some s) = refl

  module _ (r : ℕ) (small : r < max_req_id) where
    track_counts :
        (s : State d) (n : ℕ)
        → s.keys_rcvd r ≡ pos n
        → suc n ≤ s.keys_sent r / 2
        → track_request r 0 s ≡ some (received_keys s r (suc n))
    unfolding track_request count_key
    track_counts s n at below =
        let ok : leb max_req_id r ≡ false = ground (arith, small) in
        let under : ltb (s.keys_sent r / 2) (suc n) ≡ false = ground (arith, below) in
        let first : leb 0 s.last_seq_id ≡ true = ground arith in
        rw (track_request, ok, at, first, under)

    track_fulfils :
        (s : State d) (n : ℕ)
        → s.keys_rcvd r ≡ pos n
        → s.keys_sent r / 2 ≡ n
        → track_request r 0 s ≡ send_if_room (fulfilled s r)
    unfolding track_request count_key
    track_fulfils s n at half =
        let ok : leb max_req_id r ≡ false = ground (arith, small) in
        let over : ltb (s.keys_sent r / 2) (suc n) ≡ true = ground (arith, half) in
        let first : leb 0 s.last_seq_id ≡ true = ground arith in
        rw (track_request, ok, at, first, over)

    -- For a request id in range, with n keys received so far: of replies of one datagram each, the
    -- one that takes the number of keys received to one more than half of the keys sent (rounded
    -- down) marks the request as fulfilled and takes it off the outstanding requests; if fewer than
    -- MIN_OUTSTANDING_REQ of those are left then, all keys of the group are sent. The replies before
    -- it change nothing that is left after it.
    pub track_replies_lem :
        (k n : ℕ) (s : State d)
        → s.keys_rcvd r ≡ pos n
        → n + k ≡ s.keys_sent r / 2
        → track_replies (suc k) r s ≡ send_if_room (fulfilled s r)
    track_replies_lem zero n s at half =
        bind_some (track_request r 0 s) ∙ track_fulfils s n at (omega (arith, half))
    track_replies_lem (suc k) n s at half =
        ap (λ (o : Option (State d)). o >>= track_replies (suc k) r)
          (track_counts s n at (omega (arith, half)))
        ∙ track_replies_lem k (suc n) (received_keys s r (suc n)) (rw (==_refl r))
            (omega (arith, half))
        ∙ ap send_if_room (fulfilled_again s r (suc n))
