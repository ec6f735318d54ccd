-- ===== src/Clients/Datagram.antt =====
-- What a client puts into a datagram.
use kernel_bypass_group_proj.Base.{
  ℕ, zero, suc, ◌+◌, ◌-◌, ◌/◌, ◌%◌, ◌^◌, ◌≤◌, ◌<◌, ◌≡◌, refl, ◌∙◌, ap, ap₂, Bytes, ◌∷◌, ◌++◌, arith,
  length, get_or, Bool-cases, inl, inr, ltb,
}
use kernel_bypass_group_proj.Config.{memcached_header, memcached_tail}
use kernel_bypass_group_proj.Mem.{Mem, slice}
use kernel_bypass_group_proj.Api.Payload.{image}
use kernel_bypass_group_proj.Api.Payload.Send.{slice-image}
use kernel_bypass_group_proj.Clients.{
  Sending, too_long, overrun, filled, random_id, fill_payload, send_payload, send_app_payload,
}

-- A memcached datagram: the request id, the rest of the header, the message and the tail.
abbrev pub datagram : ℕ → Bytes → Bytes
datagram req_id message =
    req_id / 256 % 256 ∷ req_id % 256 ∷ (memcached_header ++ message ++ memcached_tail)

pub slice-append : (m : Mem) (o a b : ℕ) → slice m o (a + b) ≡ slice m o a ++ slice m (o + a) b
slice-append m o zero b = ap₂ (slice m) (omega arith) (omega arith)
slice-append m o (suc a) b =
    let e : suc a + b ≡ suc (a + b) = omega arith in
    let e' : o + 1 + a ≡ o + suc a = omega arith in
    ap (slice m o) e
    ∙ ap (λ r. m o ∷ r) (slice-append m (o + 1) a b ∙ ap (λ k. slice m (o + 1) a ++ slice m k b) e')

module _ (m : Mem) (message : Bytes) (req_id : ℕ) where
  filled_payload : Mem
  filled_payload = fill_payload m message req_id

  filled_payload-head :
      slice filled_payload 0 8 ≡ req_id / 256 % 256 ∷ req_id % 256 ∷ memcached_header
  unfolding filled_payload fill_payload
  filled_payload-head =
      let h0 : filled_payload 0 ≡ req_id / 256 % 256 = ground arith in
      let h1 : filled_payload 1 ≡ req_id % 256 = ground arith in
      let h2 : filled_payload 2 ≡ 0 = ground arith in
      let h3 : filled_payload 3 ≡ 0 = ground arith in
      let h4 : filled_payload 4 ≡ 0 = ground arith in
      let h5 : filled_payload 5 ≡ 1 = ground arith in
      let h6 : filled_payload 6 ≡ 0 = ground arith in
      let h7 : filled_payload 7 ≡ 0 = ground arith in rw (h0, h1, h2, h3, h4, h5, h6, h7) refl

  filled_payload-message : slice filled_payload 8 (length message) ≡ message
  unfolding filled_payload fill_payload
  filled_payload-message = slice-image _ 8 message (λ i h.
      let at_i : 8 + i - 8 ≡ i = omega arith in
      ground (arith, ap (λ (k : ℕ). get_or message k 0) at_i))

  filled_payload-tail : slice filled_payload (8 + length message) 2 ≡ memcached_tail
  unfolding filled_payload fill_payload
  filled_payload-tail =
      let n = length message in
      let first : 8 + n - (8 + n) ≡ 0 = omega arith in
      let second : 9 + n - (8 + n) ≡ 1 = omega arith in
      let h0 : filled_payload (8 + n) ≡ b'\r' = ground (arith, ap (image memcached_tail) first) in
      let h1 : filled_payload (9 + n) ≡ b'\n' = ground (arith, ap (image memcached_tail) second) in
      let e : 8 + n + 1 ≡ 9 + n = omega arith in rw (e, h0, h1) refl

  -- The four parts come one after the other.
  pub fill_payload-datagram :
      slice (fill_payload m message req_id) 0 (10 + length message) ≡ datagram req_id message
  unfolding filled_payload
  fill_payload-datagram =
      let n = length message in
      let size : 10 + n ≡ 8 + (n + 2) = omega arith in
      ap (slice filled_payload 0) size
      ∙ slice-append filled_payload 0 8 (n + 2)
      ∙ ap₂ ◌++◌ filled_payload-head
          (slice-append filled_payload 8 n 2 ∙ ap₂ ◌++◌ filled_payload-message filled_payload-tail)

-- What comes of a message, by its length: the whole datagram, writes past the end of `full_msg` for
-- the two lengths that the guard forgets the request id for, or NULL.
pub data Result (max_length : ℕ) (message : Bytes) (req_id : ℕ) : Sending → Type 0 where
  whole :
      (m : Mem)
      → length message + 10 ≤ max_length
      → slice m 0 (10 + length message) ≡ datagram req_id message
      → Result max_length message req_id (filled (10 + length message) m)
  past_end :
      max_length < length message + 10
      → length message + 8 ≤ max_length
      → Result max_length message req_id overrun
  rejected : max_length < length message + 8 → Result max_length message req_id too_long

pub send_payload_lem :
    (max_length : ℕ) (app_buf : Mem) (message : Bytes) (req_id : ℕ)
    → 10 ≤ max_length
    → max_length < 2 ^ 16
    → Result max_length message req_id (send_payload max_length app_buf message req_id)
unfolding send_payload
send_payload_lem max_length app_buf message req_id l h =
    let n = length message in
    let datagram_eq = fill_payload-datagram app_buf message req_id in
    elim (Bool-cases (ltb (max_length - 6 - 2) n)) [
      | inl t ↦ rw (send_payload, t) (rejected (ground arith))
      | inr f ↦ elim (Bool-cases (ltb max_length (2 + 6 + n + 2))) [
        | inl t' ↦ rw (send_payload, f, t') (past_end (ground arith) (ground arith))
        | inr f' ↦
            let size : (2 + 6 + n + 2) % 2 ^ 16 ≡ 10 + n = ground arith in
            rw (send_payload, f, f', size) (whole _ (ground arith) datagram_eq)
      ]
    ]

-- init_send_app_payload of the clients, for a MAX_LENGTH of 10 to 65535: a message that fits with
-- its 10 bytes of header and tail gives the whole memcached datagram under the random request id,
-- and its length; a message that is one or two bytes longer passes the guard and is written past the
-- end of full_msg; a longer one gives NULL.
pub send_app_payload_lem :
    (max_length : ℕ) (app_buf : Mem) (message : Bytes) (random : ℕ)
    → 10 ≤ max_length
    → max_length < 2 ^ 16
    → Result max_length message
        (random_id random)
        (send_app_payload max_length app_buf message random)
unfolding send_app_payload
send_app_payload_lem max_length app_buf message random l h =
    send_payload_lem max_length app_buf message (random_id random) l h

-- a message that fits
pub send_payload-whole :
    (max_length : ℕ) (app_buf : Mem) (message : Bytes) (req_id : ℕ)
    → length message + 10 ≤ max_length
    → max_length < 2 ^ 16
    → (m : Mem) × (send_payload max_length app_buf message req_id ≡ filled (10 + length message) m)
      × (slice m 0 (10 + length message) ≡ datagram req_id message)
send_payload-whole max_length app_buf message req_id h large =
    go _ (send_payload_lem max_length app_buf message req_id (omega arith) large)
  where
    go :
        (r : Sending)
        → Result max_length message req_id r
        → (m : Mem) × (r ≡ filled (10 + length message) m)
          × (slice m 0 (10 + length message) ≡ datagram req_id message)
    go _ (whole m l e) = (m, refl, e)
    go _ (past_end l e) = absurd (omega arith)
    go _ (rejected l) = absurd (omega arith)
