-- ===== src/Superseded/Api/Sends.antt =====
-- What app_send of deprecated/api.c puts on the wire.
use kernel_bypass_group_proj.Base.{
  ℕ, zero, suc, ◌+◌, ◌-◌, ◌^◌, ◌≤◌, ◌<◌, ◌≡◌, refl, ◌∙◌, ap, ap₂, subst, Bytes, ◌∷◌, some, arith,
  length,
}
use kernel_bypass_group_proj.Config.{max_payload_len, local_ip_text}
use kernel_bypass_group_proj.Mem.{Mem, memcpy, slice}
use kernel_bypass_group_proj.Dpdk.{Dpdk, Ptr}
use kernel_bypass_group_proj.World.{World, data_of, set_data}
use kernel_bypass_group_proj.World.Laws.{data_of-set_data, Sent, Sent-set_data}
use kernel_bypass_group_proj.Utils.{ip_str_to_int}
use kernel_bypass_group_proj.Arp.{arp_lookup_mac}
use kernel_bypass_group_proj.Udp.Send.{IsDatagram, udp_send_lem, IsDatagram-self}
use kernel_bypass_group_proj.Api.Payload.{payload_len_of, init_net_sge}
use kernel_bypass_group_proj.Clients.Datagram.{datagram, send_payload-whole}
use kernel_bypass_group_proj.Superseded.Api.{Limits, Junk, old_app_send}

pub slice-same :
    (f g : Mem) (a b n : ℕ) → ((i : ℕ) → i < n → f (a + i) ≡ g (b + i)) → slice f a n ≡ slice g b n
slice-same f g a b zero h = refl
slice-same f g a b (suc n) h =
    ap₂ ◌∷◌ (ap f (omega arith) ∙ h 0 (omega arith) ∙ ap g (omega arith)) (
      slice-same f g (a + 1) (b + 1) n
        (λ i l. ap f (omega arith) ∙ h (suc i) (omega arith) ∙ ap g (omega arith)))

copied : (m full : Mem) (n i : ℕ) → i < n → memcpy m 42 full n (42 + i) ≡ full (0 + i)
copied m full n i h = let at_i : 42 + i - 42 ≡ 0 + i = omega arith in ground (arith, ap full at_i)

module _ (d : Dpdk) (c : Limits) (junk : Junk) (large : c.max_length < 2 ^ 16)
    (local_small : ip_str_to_int d local_ip_text < 2 ^ 32) where
  -- One datagram with the request id and the message, out of the buffer; nothing else is touched.
  pub old_app_send-Sent :
      (w : World) (p : Ptr) (message : Bytes) (req_id ip : ℕ) (mac : Mem)
      → length message + 10 ≤ c.max_length
      → length message ≤ max_payload_len
      → ip < 2 ^ 32
      → arp_lookup_mac w.arp ip ≡ some mac
      → (w' : World) × (f : Mem) × (old_app_send d c junk w p 34 message req_id ip ≡ some w')
        × Sent w p f (length message + 52) w'
        × IsDatagram d f f mac ip (length message + 10)
        × (slice f 42 (10 + length message) ≡ datagram req_id message)
  unfolding old_app_send init_net_sge
  old_app_send-Sent w p message req_id ip mac fits small ip_small known =
      let n = length message in
      let (full, filled_eq, bytes) =
        send_payload-whole c.max_length junk.full_msg message req_id fits large in
      let g = memcpy (data_of w p) 12 (d.net_sge_image p (payload_len_of (data_of w p) 34)) 24 in
      let w1 = set_data w p g in
      let m = memcpy (data_of w1 p) 42 full (10 + n) in
      let w2 = set_data w1 p m in
      let (w', f, ran, sent, is) =
        udp_send_lem d w2 (record { len = 10 + n; handle = p }) ip (omega arith) ip_small
          local_small mac known in
      (
        w',
        f,
        rw (old_app_send, filled_eq, ran),
        subst (λ k. Sent w p f k w') (omega arith)
            (Sent-set_data w p g f _ w' (Sent-set_data w1 p m f _ w' sent)),
        subst (λ k. IsDatagram d f f mac ip k) (omega arith)
            (IsDatagram-self d _ f mac ip (10 + n) is),
        slice-same f full 42 0 (10 + n) (λ i l.
              is.body i
              ∙ ap (λ (t : Mem). t (42 + i)) (data_of-set_data w1 p m)
              ∙ copied (data_of w1 p) full (10 + n) i l)
            ∙ bytes,
      )
