-- ===== src/Superseded/Api/Received.antt =====
-- deprecated/api.c, init_rcv_app_payload and strip_key_value: what is read of a datagram that stands
-- in a packet buffer behind headers of 42 bytes.
use kernel_bypass_group_proj.Base.{
  ℕ, ◌+◌, ◌-◌, ◌%◌, ◌^◌, ◌≤◌, ◌<◌, ◌≡◌, ◌≢◌, refl, sym, ◌∙◌, ap, Bytes, [], ◌∷◌, ◌++◌, append-nil,
  some, arith, true, false, length, All, ltb, codes,
}
use kernel_bypass_group_proj.Mem.{Mem, memcpy, slice, read16}
use kernel_bypass_group_proj.Dpdk.{Dpdk, Ptr}
use kernel_bypass_group_proj.World.{World, data_of, set_data}
use kernel_bypass_group_proj.World.Laws.{data_of-set_data}
use kernel_bypass_group_proj.Api.Keys.{space, c_str, strip_key_value}
use kernel_bypass_group_proj.Api.Keys.RoundTrip.{IsKey}
use kernel_bypass_group_proj.Api.Keys.Reply.{strip_key_value_lem}
use kernel_bypass_group_proj.Api.Payload.{payload_len_of, init_net_sge}
use kernel_bypass_group_proj.Clients.Datagram.{datagram, slice-append}
use kernel_bypass_group_proj.Clients.Receive.{slice-message, slice-req_id}
use kernel_bypass_group_proj.Superseded.Api.{Limits, Payload, receive, message_of}
use kernel_bypass_group_proj.Superseded.Api.Sends.{slice-same}

-- The buffer `p` holds a datagram with this request id and message.
pub record Holds (w : World) (p : Ptr) (req_id : ℕ) (message : Bytes) : Type 0 where
  pub small : req_id < 2 ^ 16
  pub dgram_len : payload_len_of (data_of w p) 34 ≡ 10 + length message
  pub payload : slice (data_of w p) 42 (10 + length message) ≡ datagram req_id message

-- What was read: the request id, the length and the bytes.
pub record IsRead (req_id : ℕ) (message : Bytes) (ap : Payload) : Type 0 where
  pub id_read : read16 ap.bytes 0 ≡ req_id
  pub msg_len : ap.msg_len ≡ length message
  pub whole : slice ap.bytes 0 (10 + length message) ≡ datagram req_id message

copied_back : (m src : Mem) (n n' i : ℕ) → n' ≡ n → i < n → memcpy m 0 src n' (0 + i) ≡ src i
copied_back m src n n' i e l = ground arith

-- What init_net_sge leaves in the buffer.
abbrev pub laid : Dpdk → World → Ptr → World
laid d w p =
    set_data w p (memcpy (data_of w p) 12 (d.net_sge_image p (payload_len_of (data_of w p) 34)) 24)

laid_behind :
    (d : Dpdk) (w : World) (p : Ptr) (i : ℕ)
    → data_of (laid d w p) p (34 + 8 + i) ≡ data_of w p (42 + i)
laid_behind d w p i = ap (λ (m : Mem). m (34 + 8 + i)) (data_of-set_data w p _) ∙ ground arith

-- the C string that a buffer with text in it holds
c_str-word : (a b : Bytes) → All (λ x. x ≢ 0) a → c_str (a ++ b) ≡ a ++ c_str b
unfolding c_str
c_str-word [] b h = refl
c_str-word (x ∷ a) b h = ground (arith, c_str-word a b h.1)

pub c_str-text : (a : Bytes) → All (λ x. x ≢ 0) a → c_str a ≡ a
unfolding c_str
c_str-text a h = ap c_str (sym (append-nil a)) ∙ c_str-word a [] h ∙ append-nil a

-- a reply of memcached for a key
abbrev pub value_text : Bytes → Bytes → Bytes
value_text key rest = codes "VALUE " ++ (key ++ space ∷ rest)

module _ (d : Dpdk) (c : Limits) (large : c.max_length < 2 ^ 16) where
  pub receive-IsRead :
      (w : World) (p : Ptr) (req_id : ℕ) (message : Bytes) (app_buf : Mem)
      → Holds w p req_id message
      → length message + 10 ≤ c.max_length
      → (ap : Payload) × (receive d c w p 34 app_buf ≡ (laid d w p, some ap))
        × IsRead req_id message ap
  unfolding receive init_net_sge
  receive-IsRead w p req_id message app_buf holds fits =
      let n = length message in
      let total_len = (10 + n) % 2 ^ 16 in
      let bytes = memcpy app_buf 0 (λ i. data_of (laid d w p) p (34 + 8 + i)) total_len in
      let short : ltb c.max_length (10 + n) ≡ false = ground arith in
      let whole : slice bytes 0 (10 + n) ≡ datagram req_id message =
        slice-same bytes (data_of w p) 0 42 (10 + n) (λ i l.
          copied_back app_buf (λ x. data_of (laid d w p) p (34 + 8 + x)) (10 + n) total_len i
            (omega (arith, fits, large)) l
          ∙ laid_behind d w p i)
        ∙ holds.payload in
      let (high, low) = slice-req_id bytes 0 req_id message whole in
      (
        record { bytes = bytes; msg_len = (total_len + 2 ^ 16 - 10) % 2 ^ 16 },
        rw (receive, holds.dgram_len, short) refl,
        record {
          id_read = omega (arith, high, low, holds.small);
          msg_len = omega (arith, fits, large);
          whole = whole;
        },
      )

  pub message_of_lem :
      (payload : Payload) (req_id : ℕ) (message : Bytes)
      → IsRead req_id message payload
      → length message + 10 ≤ c.max_length
      → message_of d c payload ≡ some message
  unfolding message_of
  message_of_lem payload req_id message is fits =
      let short : ltb c.max_length (8 + length message) ≡ false = ground arith in
      rw (message_of, is.msg_len, short)
        (ap some (slice-message payload.bytes 0 req_id message is.whole))

  -- The key that strip_key_value finds in a reply of memcached.
  pub read_key_of :
      (array key rest : Bytes) (payload : Payload) (req_id : ℕ)
      → IsKey key
      → All (λ x. x ≢ 0) (value_text key rest)
      → IsRead req_id (value_text key rest) payload
      → length (value_text key rest) + 10 ≤ c.max_length
      → strip_key_value array
          (c_str (slice payload.bytes 8 (c.max_length - 8)))
          (slice payload.bytes 8 payload.msg_len)
        ≡ some (true, key)
  read_key_of array key rest payload req_id is text read fits =
      let message = value_text key rest in
      let n = length message in
      let behind = slice payload.bytes (8 + n) (c.max_length - 8 - n) in
      let size : c.max_length - 8 ≡ n + (c.max_length - 8 - n) = omega (arith, fits) in
      let same : slice payload.bytes 8 n ≡ message =
        slice-message payload.bytes 0 req_id message read.whole in
      let string : c_str (slice payload.bytes 8 (c.max_length - 8)) ≡ message ++ c_str behind =
        ap c_str (
          ap (slice payload.bytes 8) size
          ∙ slice-append payload.bytes 8 n (c.max_length - 8 - n)
          ∙ ap (λ t. t ++ behind) same)
        ∙ c_str-word message behind text in
      rw (string, read.msg_len, same)
        (strip_key_value_lem array key rest ((key ++ space ∷ rest) ++ c_str behind) is)
