-- ===== src/Clients/Receive.antt =====
-- A datagram of a client, as the middlebox takes it apart.
use kernel_bypass_group_proj.Base.{
  ℕ, zero, suc, ◌+◌, ◌-◌, ◌/◌, ◌%◌, ◌^◌, ◌≤◌, ◌<◌, ◌≡◌, refl, sym, ◌∙◌, ap, Bytes, ◌++◌, some,
  arith, length, take, take-append, get_or, ap₂, ltb, false,
}
use kernel_bypass_group_proj.Config.{max_payload_len, memcached_tail}
use kernel_bypass_group_proj.Mem.{Mem, slice}
use kernel_bypass_group_proj.Api.Keys.{drop}
use kernel_bypass_group_proj.Api.Payload.{
  AppPayload, payload_len_of, received, init_rcv_app_payload, extract_info,
}
use kernel_bypass_group_proj.Clients.Datagram.{datagram, slice-append}

pub length-slice : (m : Mem) (o n : ℕ) → length (slice m o n) ≡ n
length-slice m o zero = refl
length-slice m o (suc n) = ap suc (length-slice m (o + 1) n)

-- Bytes that are a datagram: the request id in the first two, the message behind the eighth.
module _ (m : Mem) (o req_id : ℕ) (message : Bytes)
    (e : slice m o (10 + length message) ≡ datagram req_id message) where
  slice-parts :
      slice m o 8 ++ (slice m (o + 8) (length message) ++ slice m (o + 8 + length message) 2)
      ≡ datagram req_id message
  slice-parts =
      let n = length message in
      let size : 8 + (n + 2) ≡ 10 + n = omega arith in
      ap (λ t. slice m o 8 ++ t) (sym (slice-append m (o + 8) n 2))
      ∙ sym (slice-append m o 8 (n + 2))
      ∙ ap (slice m o) size
      ∙ e

  pub slice-message : slice m (o + 8) (length message) ≡ message
  slice-message =
      let n = length message in
      let s = slice m (o + 8) n in
      sym (take-append s (slice m (o + 8 + n) 2))
      ∙ ap (λ k. take k (s ++ slice m (o + 8 + n) 2)) (length-slice m (o + 8) n)
      ∙ ap (λ t. take n (drop 8 t)) slice-parts
      ∙ take-append message memcached_tail

  pub slice-req_id : (m o ≡ req_id / 256 % 256) × (m (o + 1) ≡ req_id % 256)
  slice-req_id = (ap (λ t. get_or t 0 0) slice-parts, ap (λ t. get_or t 1 0) slice-parts)

-- A datagram of a client, with a request id of 16 bits and a message of at most MAX_PAYLOAD_LEN
-- bytes, that lies behind the UDP header with the right dgram_len: init_rcv_app_payload of the
-- middlebox accepts it, and reads the request id and exactly the message.
pub init_rcv_app_payload-datagram :
    (m : Mem) (udph req_id : ℕ) (message : Bytes)
    → req_id < 2 ^ 16
    → length message ≤ max_payload_len
    → payload_len_of m udph ≡ 10 + length message
    → slice m (udph + 8) (10 + length message) ≡ datagram req_id message
    → (ap : AppPayload) × (init_rcv_app_payload m udph ≡ some ap)
      × (extract_info m ap.req_id ≡ req_id)
      × (slice m ap.payload ap.msg_len ≡ message)
unfolding init_rcv_app_payload
init_rcv_app_payload-datagram m udph req_id message h l size e =
    let n = length message in
    let fits : ltb 1472 (10 + n) ≡ false = ground arith in
    let (high, low) = slice-req_id m (udph + 8) req_id message e in
    let start : udph + 8 + 2 + 6 ≡ udph + 8 + 8 = omega arith in
    let rest : ((10 + n) % 2 ^ 16 + 2 ^ 16 - 10) % 2 ^ 16 ≡ n = omega (arith, l) in
    (
      received udph (10 + n),
      rw (init_rcv_app_payload, size, fits) refl,
      omega (arith, high, low, h),
      ap₂ (slice m) start rest ∙ slice-message m (udph + 8) req_id message e,
    )
